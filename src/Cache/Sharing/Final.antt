-- ===== src/Cache/Sharing/Final.antt =====
-- src/cache_analyzer_cpp.cpp: what the counters hold when the threads have made all their additions.
use native.Mathlib.Decide.{ℕ_discrete}
use native.Mathlib.Nat.{mul-le-mul_right}
use context_switching.Prelude.{
  ℕ, zero, suc, ◌+◌, ◌*◌, ◌^◌, ◌≤◌, ◌<◌, ◌≡◌, ◌⊎◌, inl, inr, refl, ap, ◌∙◌, List, [], ◌∷◌, arith,
  length, length-append, sum, sum-append,
}
use context_switching.Prelude.Threads.{weigh, weigh-put, weigh-suc, weigh-zero, weigh_none}
use context_switching.Cache.Sharing.{
  u32, one_round, additions, State, own, shared, Step, fetch_add, Reach, start, later,
}

sum-additions : (iterations : ℕ) → sum (additions iterations) ≡ iterations * 296
unfolding additions
sum-additions zero = omega arith
sum-additions (suc n) =
    let round : sum one_round ≡ 296 = refl in
    omega (arith, sum-append one_round (additions n), sum-additions n, round)

length-additions : (iterations : ℕ) → length (additions iterations) ≡ iterations * 101
unfolding additions
length-additions zero = omega arith
length-additions (suc n) =
    let round : length one_round ≡ 101 = refl in
    omega (arith, length-append one_round (additions n), length-additions n, round)

weigh_constant : (w : List ℕ → ℕ) (n : ℕ) (xs : List ℕ) → weigh w n (λ _. xs) ≡ n * w xs
weigh_constant w zero xs = weigh-zero w (λ _. xs) ∙ omega arith
weigh_constant w (suc n) xs = omega (arith, weigh-suc w n (λ _. xs), weigh_constant w n xs)

-- With a counter of its own for each thread.
Reach-own :
    {n iterations k : ℕ} {s : State}
    → Reach n iterations own k s
    → (i : ℕ) → u32 (s.counter i + sum (s.left i)) ≡ u32 (iterations * 296)
Reach-own {iterations = iterations} start i = omega (arith, sum-additions iterations)
Reach-own (later {s = s} r (fetch_add j a rest l e)) i = elim (ℕ_discrete i j) [
  | yes f ↦ ground (arith, f, e, Reach-own r i)
  | no f ↦ ground (arith, f, Reach-own r i)
]

-- With one counter for all threads.
Reach-shared :
    {n iterations k : ℕ} {s : State}
    → Reach n iterations shared k s
    → u32 (s.counter 0 + weigh sum n s.left) ≡ u32 (n * (iterations * 296))
Reach-shared {n} {iterations} start =
    omega (
      arith,
      weigh_constant sum n (additions iterations),
      ap (λ x. n * x) (sum-additions iterations),
    )
Reach-shared {n} (later {s = s} r (fetch_add j a rest l e)) =
    ground (arith, e, Reach-shared r, weigh-put sum n j rest s.left l)

-- Each step makes one of the additions that are left.
Reach-steps :
    {n iterations : ℕ} {slot : ℕ → ℕ} {k : ℕ} {s : State}
    → Reach n iterations slot k s
    → k + weigh length n s.left ≡ n * (iterations * 101)
Reach-steps {n} {iterations} start = omega (
  arith,
  weigh_constant length n (additions iterations),
  ap (λ x. n * x) (length-additions iterations),
)
Reach-steps {n} (later {s = s} r (fetch_add j a rest l e)) =
    ground (arith, e, Reach-steps r, weigh-put length n j rest s.left l)

Reach-bounded :
    {n iterations : ℕ} {slot : ℕ → ℕ} {k : ℕ} {s : State}
    → Reach n iterations slot k s
    → (c : ℕ) → s.counter c < 2 ^ 32
Reach-bounded start c = omega arith
Reach-bounded (later r (fetch_add j a rest l e)) c = ground (arith, Reach-bounded r c)

is_nil : (xs : List ℕ) → length xs ≡ 0 → xs ≡ []
is_nil [] h = refl
is_nil (x ∷ xs) h = absurd (omega (arith, h))

List-cases : (xs : List ℕ) → (xs ≡ []) ⊎ ((a : ℕ) × (rest : List ℕ) × (xs ≡ a ∷ rest))
List-cases [] = inl refl
List-cases (a ∷ rest) = inr (a, rest, refl)

nothing_left : (n : ℕ) (f : ℕ → List ℕ) → weigh length n f ≡ 0 → (i : ℕ) → i < n → f i ≡ []
nothing_left zero f h i l = absurd (omega (arith, l))
nothing_left (suc n) f h i l =
    let parts = weigh-suc length n f in
    elim (ℕ_discrete i n) [
      | yes e ↦ ground (arith, e, is_nil (f n) (omega (arith, h, parts)))
      | no e ↦ nothing_left n f (omega (arith, h, parts)) i (omega (arith, l, e))
    ]

next_addition :
    (n : ℕ) (f : ℕ → List ℕ)
    → 0 < weigh length n f
    → (i : ℕ) × (a : ℕ) × (rest : List ℕ) × (i < n) × (f i ≡ a ∷ rest)
next_addition zero f h = absurd (omega (arith, h, weigh-zero length f))
next_addition (suc n) f h = elim (List-cases (f n)) [
  | inl e ↦
      let none_here : length (f n) ≡ 0 = ap length e in
      let (i, a, rest, l, g) =
        next_addition n f (omega (arith, h, weigh-suc length n f, none_here)) in
      (i, a, rest, omega (arith, l), g)
  | inr (a, rest, e) ↦ (n, a, rest, omega arith, e)
]

-- After n threads have made k additions, in any order: k is at most the number of all additions; if it is
-- less, another step can be made; and at the end the shared counter holds the exact sum, where n is at most
-- 64 and each thread makes at most 50000 rounds: no addition is lost, and `int` does not overflow.
pub bouncing_counts :
    {n iterations k : ℕ} {s : State}
    → n ≤ 64
    → iterations ≤ 50000
    → Reach n iterations shared k s
    → (k ≤ n * (iterations * 101))
      × (k < n * (iterations * 101) → (t : State) × Step n shared s t)
      × (k ≡ n * (iterations * 101)
          → (s.counter 0 ≡ n * (iterations * 296)) × (s.counter 0 < 2 ^ 31))
bouncing_counts {n} {iterations} {k} {s} h i r =
    let steps = Reach-steps r in
    let rows : n * (iterations * 296) ≤ 64 * (iterations * 296) =
      mul-le-mul_right (iterations * 296) h in
    (
      omega (arith, steps),
      λ l.
          let (j, a, rest, m, e) = next_addition n s.left (omega (arith, steps, l)) in
          (_, fetch_add j a rest m e),
      λ e.
          let done = nothing_left n s.left (omega (arith, steps, e)) in
          let rest : weigh sum n s.left ≡ 0 = weigh_none sum n s.left (λ j m. ap sum (done j m)) in
          (
            omega (arith, Reach-shared r, rest, Reach-bounded r 0, rows, i),
            omega (arith, Reach-shared r, rest, Reach-bounded r 0, rows, i),
          ),
    )

-- And with a counter of its own each thread ends with its own sum, where it makes at most 100000 rounds.
pub own_counts :
    {n iterations k : ℕ} {s : State}
    → iterations ≤ 100000
    → Reach n iterations own k s
    → k ≡ n * (iterations * 101)
    → (j : ℕ) → j < n
    → s.counter j ≡ iterations * 296
own_counts {n} {iterations} {k} {s} i r e j m =
    let done = nothing_left n s.left (omega (arith, Reach-steps r, e)) j m in
    let rest : sum (s.left j) ≡ 0 = ap sum done in
    omega (arith, Reach-own r j, rest, Reach-bounded r j, i)
