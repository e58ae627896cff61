-- ===== src/Vm/Access/Places.antt =====
-- src/vm_explorer.cpp: which bytes the loops over a buffer write.
use native.Mathlib.Decide.{ℕ_discrete, dec_lt}
use native.Mathlib.Nat.{mul-div_cancel, mul-mod_left, div-add-mod'}
use context_switching.Prelude.{
  ℕ, zero, suc, ◌+◌, ◌*◌, ◌/◌, ◌%◌, ◌^◌, ◌<◌, ◌≡◌, ◌≢◌, refl, ap, ◌∙◌, ◌&&◌, List, [], ◌∷◌, some,
  ◌==◌, if◌then◌else◌, arith, lt→ltb,
}
use context_switching.Prelude.Words.{u64}
use context_switching.Prelude.Strides.{places, places_next, places_end}
use context_switching.Prelude.Occurrences.{count, iota}
use context_switching.Vm.Block.{update}
use context_switching.Vm.Access.{Memory, strided}

abbrev pub iterate : {A : Type 0} → ℕ → (A → A) → A → A
iterate zero f v = v
iterate (suc n) f v = iterate n f (f v)

-- The accesses at a list of places, none of them out of bounds.
abbrev pub applied : (ℕ → ℕ) → List ℕ → Memory → Memory
applied f [] m = m
applied f (p ∷ ps) m = applied f ps (update m p (f (m p)))

pub applied_lem :
    (f : ℕ → ℕ) (ps : List ℕ) (m : Memory) (p : ℕ) → applied f ps m p ≡ iterate (count p ps) f (m p)
applied_lem f [] m p = refl
applied_lem f (q ∷ qs) m p =
    let rest = applied_lem f qs (update m q (f (m q))) p in
    elim (ℕ_discrete p q) [
      | yes e ↦
          let value : update m q (f (m q)) p ≡ f (m p) = ground (arith, e) in
          let more : suc (count p qs) ≡ count p (q ∷ qs) = ground (arith, e) in
          rest ∙ ap (iterate (count p qs) f) value ∙ ap (λ n. iterate n f (m p)) more
      | no n ↦
          let value : update m q (f (m q)) p ≡ m p = ground (arith, n) in
          let same : count p qs ≡ count p (q ∷ qs) = ground (arith, n) in
          rest ∙ ap (iterate (count p qs) f) value ∙ ap (λ n. iterate n f (m p)) same
    ]

abbrev pub scaled : ℕ → List ℕ → List ℕ
scaled s [] = []
scaled s (k ∷ ks) = k * s ∷ scaled s ks

same_place : (p k s : ℕ) → 0 < s → (p == k * s) ≡ ((p % s == 0) && (p / s == k))
same_place p k s h = elim (ℕ_discrete p (k * s)) [
  | yes e ↦ rw (e, mul-div_cancel k h, mul-mod_left k s) (ground arith)
  | no n ↦ elim (ℕ_discrete (p / s) k) [
    | yes d ↦
        let product : p / s * s ≡ k * s = ap (λ j. j * s) d in
        let rest : p % s ≢ 0 = λ z. n (omega (arith, div-add-mod' p s, product, z)) in
        ground (arith, n, d, rest)
    | no d ↦ ground (arith, n, d)
  ]
]

pub count-scaled :
    (p s : ℕ) (ks : List ℕ)
    → 0 < s
    → count p (scaled s ks) ≡ (if p % s == 0 then count (p / s) ks else 0)
count-scaled p s [] h = ground arith
count-scaled p s (k ∷ ks) h = ground (arith, same_place p k s h, count-scaled p s ks h)

module _ (size stride : ℕ) (f : ℕ → ℕ) (positive : 0 < stride) (fits : size + stride < 2 ^ 64) where
  pub strided-applied :
      (fuel k : ℕ) (m : Memory)
      → 0 < fuel
      → size < k * stride + fuel
      → strided fuel size stride f (k * stride) m
        ≡ some (applied f (scaled stride (iota k (places size stride (k * stride)))) m)
  unfolding strided
  strided-applied zero k m p l = absurd (omega (arith, p))
  strided-applied (suc fuel) k m p l = elim (dec_lt (k * stride) size) [
    | yes i ↦
        let e : u64 (k * stride + stride) ≡ suc k * stride = omega (arith, i, fits) in
        let n : places size stride (k * stride) ≡ suc (places size stride (suc k * stride)) =
          places_next size stride (k * stride) positive i
          ∙ ap (λ j. suc (places size stride j)) (omega arith) in
        rw (lt→ltb _ _ i, e, n)
          (strided-applied fuel (suc k) (update m (k * stride) (f (m (k * stride))))
            (omega (arith, i, l)) (omega (arith, l, positive)))
    | no i ↦
        rw (places_end size stride (k * stride) positive (omega (arith, i))) (ground (arith, i))
  ]
