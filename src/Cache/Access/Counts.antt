-- ===== src/Cache/Access/Counts.antt =====
-- src/cache_analyzer_cpp.cpp, `execute_pattern`: how many accesses the loops make.
use native.Mathlib.Decide.{dec_lt}
use context_switching.Prelude.{
  ℕ, zero, suc, ◌+◌, ◌*◌, ◌^◌, ◌<◌, ◌≡◌, refl, ap, ◌∙◌, List, some, length, get_elem?_total, arith,
  lt→ltb,
}
use context_switching.Prelude.Words.{u64}
use context_switching.Prelude.Strides.{places, places_end, places_next}
use context_switching.Cache.Access.{access, strided, execute_strided}

module _ {A : Type 0} (items : List A) (stride : ℕ) (positive : 0 < stride)
    (fits : length items + stride < 2 ^ 64) where
  access_lem :
      (i accesses : ℕ) → i < length items → access items i accesses ≡ some (u64 (accesses + 1))
  access_lem i accesses h = let (item, e) = get_elem?_total items i h in rw e refl

  strided_lem :
      (fuel i accesses : ℕ)
      → 0 < fuel
      → length items < i + fuel
      → accesses < 2 ^ 64
      → strided fuel items stride i accesses
        ≡ some (u64 (accesses + places (length items) stride i))
  unfolding strided
  strided_lem zero i accesses f h w = absurd (omega (arith, f))
  strided_lem (suc fuel) i accesses f h w = elim (dec_lt i (length items)) [
    | yes l ↦
        let on : u64 (i + stride) ≡ i + stride = omega (arith, l, fits) in
        rw (lt→ltb i (length items) l, access_lem i accesses l, on)
          (strided_lem fuel (i + stride) (u64 (accesses + 1)) (omega (arith, l, h))
              (omega (arith, h, positive)) (omega arith)
            ∙ ap some (omega (arith, places_next (length items) stride i positive l)))
    | no l ↦
        let none_left = places_end (length items) stride i positive (omega (arith, l)) in
        ground (arith, l, none_left, w)
  ]

  iterations_lem :
      (iterations accesses : ℕ)
      → accesses < 2 ^ 64
      → execute_strided iterations items stride accesses
        ≡ some (u64 (accesses + iterations * places (length items) stride 0))
  unfolding execute_strided
  iterations_lem zero accesses w = ap some (omega (arith, w))
  iterations_lem (suc n) accesses w =
      rw (strided_lem (suc (length items)) 0 accesses (omega arith) (omega arith) w) (
        iterations_lem n (u64 (accesses + places (length items) stride 0)) (omega arith)
        ∙ ap some (omega arith))

-- For a positive stride and sizes that do not wrap round, the sequential and the stride pattern end,
-- read nothing out of bounds and count, modulo 2^64, one access for each place a multiple of the
-- stride below the size, in each iteration.
execute_strided_lem :
    {A : Type 0} (items : List A) (stride iterations : ℕ)
    → 0 < stride
    → length items + stride < 2 ^ 64
    → execute_strided iterations items stride 0
      ≡ some (u64 (iterations * places (length items) stride 0))
execute_strided_lem items stride iterations p f =
    iterations_lem items stride p f iterations 0 (omega arith) ∙ ap some (omega arith)
