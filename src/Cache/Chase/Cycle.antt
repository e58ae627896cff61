-- ===== src/Cache/Chase/Cycle.antt =====
-- src/cache_analyzer_cpp.cpp, `PointerChaseList`: the pointers make one cycle of all nodes.
use context_switching.Prelude.{
  ℕ, zero, suc, ◌+◌, ◌*◌, ◌^◌, ◌<◌, ◌≡◌, ◌≢◌, refl, ap, ◌∙◌, List, [], ◌∷◌, ◌++◌, some, All, arith,
  length, length-append,
}
use context_switching.Prelude.Words.{u64}
use context_switching.Cache.Chase.{set_next, link, build, pass, chase}

-- No index twice, as in a shuffle.
abbrev pub Distinct : List ℕ → Type 0
Distinct [] = Unit
Distinct (a ∷ rest) = All (λ b. b ≢ a) rest × Distinct rest

-- `next` leads from each node of the list to the following one, and from the last to `first`.
abbrev pub Follows : (ℕ → ℕ) → ℕ → ℕ → List ℕ → Type 0
Follows next first a [] = next a ≡ first
Follows next first a (b ∷ rest) = (next a ≡ b) × Follows next first b rest

-- What is linked later leaves the other nodes alone.
link_other :
    (first : ℕ) (xs : List ℕ) (next : ℕ → ℕ) (n : ℕ)
    → All (λ b. b ≢ n) xs
    → link first xs next n ≡ next n
unfolding link
link_other first [] next n h = refl
link_other first (a ∷ []) next n h = ground (arith, h.0)
link_other first (a ∷ b ∷ rest) next n h =
    link_other first (b ∷ rest) (set_next a b next) n h.1 ∙ ground (arith, h.0)

link-Follows :
    (first a : ℕ) (rest : List ℕ) (next : ℕ → ℕ)
    → Distinct (a ∷ rest)
    → Follows (link first (a ∷ rest) next) first a rest
unfolding link
link-Follows first a [] next h = ground arith
link-Follows first a (b ∷ rest) next h = (
  link_other first (b ∷ rest) (set_next a b next) a h.0 ∙ ground arith,
  link-Follows first b rest (set_next a b next) h.1,
)

pass-suc :
    (n : ℕ) (next : ℕ → ℕ) (a b last : ℕ) (visited : List ℕ)
    → next a ≡ b
    → pass n next b ≡ (visited, last)
    → pass (suc n) next a ≡ (b ∷ visited, last)
unfolding pass
pass-suc n next a b last visited e f = rw (e, f) refl

pass-zero : (next : ℕ → ℕ) (a : ℕ) → pass 0 next a ≡ ([], a)
unfolding pass
pass-zero next a = refl

-- A pass from the node a through the rest of the list, to the first node.
pass_rest :
    (next : ℕ → ℕ) (first a : ℕ) (rest : List ℕ)
    → Follows next first a rest
    → pass (suc (length rest)) next a ≡ (rest ++ first ∷ [], first)
pass_rest next first a [] h = pass-suc 0 next a first first [] h (pass-zero next first)
pass_rest next first a (b ∷ rest) h =
    pass-suc (suc (length rest)) next a b first (rest ++ first ∷ []) h.0
      (pass_rest next first b rest h.1)

-- A pass from the node a to a later node c.
pass_to :
    (next : ℕ → ℕ) (first a c : ℕ) (xs ys : List ℕ)
    → Follows next first a (xs ++ c ∷ ys)
    → (pass (suc (length xs)) next a ≡ (xs ++ c ∷ [], c)) × Follows next first c ys
pass_to next first a c [] ys h = (pass-suc 0 next a c c [] h.0 (pass-zero next c), h.1)
pass_to next first a c (b ∷ xs) ys h =
    let (e, f) = pass_to next first b c xs ys h.1 in
    (pass-suc (suc (length xs)) next a b c (xs ++ c ∷ []) h.0 e, f)

pass-append :
    (m n k : ℕ) (next : ℕ → ℕ) (a : ℕ)
    → k ≡ m + n
    → pass k next a
      ≡ ((pass m next a).0 ++ (pass n next (pass m next a).1).0, (pass n next (pass m next a).1).1)
unfolding pass
pass-append zero n k next a e = ap (λ j. pass j next a) (omega (arith, e))
pass-append (suc m) n zero next a e = absurd (omega (arith, e))
pass-append (suc m) n (suc k) next a e =
    rw (pass-append m n k next (next a) (omega (arith, e))) refl

regroup : (xs ys : List ℕ) (a : ℕ) → (xs ++ a ∷ []) ++ ys ≡ xs ++ a ∷ ys
regroup [] ys a = refl
regroup (x ∷ xs) ys a = ap (λ zs. x ∷ zs) (regroup xs ys a)

full_pass :
    (before after : List ℕ) (z : ℕ)
    → Distinct (before ++ z ∷ after)
    → (next : ℕ → ℕ) × (build (before ++ z ∷ after) ≡ some next)
      × (pass (length (before ++ z ∷ after)) next z ≡ (after ++ (before ++ z ∷ []), z))
unfolding build
full_pass [] after z h =
    let next = link z (z ∷ after) (λ n. n) in
    (next, refl, pass_rest next z z after (link-Follows z z after (λ n. n) h))
full_pass (a ∷ xs) after z h =
    let rest = xs ++ z ∷ after in
    let next = link a (a ∷ rest) (λ n. n) in
    let (e, f) = pass_to next a a z xs after (link-Follows a a rest (λ n. n) h) in
    let g = pass_rest next a z after f in
    (
      next,
      refl,
      pass-append (suc (length after)) (suc (length xs)) (suc (length rest)) next z
            (omega (arith, length-append xs (z ∷ after)))
          ∙ rw (g, e) (ap (λ vs. (vs, z)) (regroup after (xs ++ z ∷ []) a)),
    )

chase_lem :
    (iterations size z accesses : ℕ) (next : ℕ → ℕ) (visited : List ℕ)
    → pass size next z ≡ (visited, z)
    → length visited ≡ size
    → accesses < 2 ^ 64
    → chase iterations size next z accesses ≡ (u64 (accesses + iterations * size), z)
unfolding chase
chase_lem zero size z accesses next visited e l w = ap (λ n. (n, z)) (omega (arith, w))
chase_lem (suc n) size z accesses next visited e l w =
    rw (e, l)
      (chase_lem n size z (u64 (accesses + size)) next visited e l (omega arith)
        ∙ ap (λ n. (n, z)) (omega arith))

length_around :
    (before after : List ℕ) (z : ℕ)
    → length (after ++ (before ++ z ∷ [])) ≡ length (before ++ z ∷ after)
length_around before after z = omega (
  arith,
  length-append after (before ++ z ∷ []),
  length-append before (z ∷ []),
  length-append before (z ∷ after),
)

-- For any shuffle of distinct nodes the list is built, and a pass from any node z, before and after
-- which the others stand in the shuffle, reads those after it, those before it and at last z itself:
-- every node once. So after any number of iterations the chase is back at z, with one access, modulo
-- 2^64, for each node and iteration.
pub one_cycle :
    (before after : List ℕ) (z iterations : ℕ)
    → Distinct (before ++ z ∷ after)
    → let size = length (before ++ z ∷ after) in
      (next : ℕ → ℕ) × (build (before ++ z ∷ after) ≡ some next)
      × (pass size next z ≡ (after ++ (before ++ z ∷ []), z))
      × (chase iterations size next z 0 ≡ (u64 (iterations * size), z))
one_cycle before after z iterations h =
    let (next, e, p) = full_pass before after z h in
    (
      next,
      e,
      p,
      chase_lem iterations (length (before ++ z ∷ after)) z 0 next _ p
            (length_around before after z) (omega arith)
          ∙ ap (λ n. (n, z)) (omega arith),
    )
