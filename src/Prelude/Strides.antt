-- ===== src/Prelude/Strides.antt =====
-- Loops that step by a stride: how many places they visit.
use native.Mathlib.Decide.{dec_le}
use native.Mathlib.Nat.{div-eq_of_lt, div-eq-sub-div}
use context_switching.Prelude.{ℕ, suc, ◌+◌, ◌-◌, ◌/◌, ◌≤◌, ◌<◌, ◌≡◌, ap, arith}

-- How many of the places i, i + stride, … lie below `size`.
abbrev pub places : ℕ → ℕ → ℕ → ℕ
places size stride i = (size - i + (stride - 1)) / stride

pub places_end : (size stride i : ℕ) → 0 < stride → size ≤ i → places size stride i ≡ 0
places_end size stride i p h =
    let e : size - i + (stride - 1) ≡ stride - 1 = omega (arith, h) in
    rw e (div-eq_of_lt (omega (arith, p)))

pub places_next :
    (size stride i : ℕ)
    → 0 < stride
    → i < size
    → places size stride i ≡ suc (places size stride (i + stride))
places_next size stride i p h =
    let first = div-eq-sub-div {m = stride} {n = size - i + (stride - 1)} p (omega (arith, p, h)) in
    elim (dec_le (i + stride) size) [
      | yes l ↦
          let e : size - i + (stride - 1) - stride ≡ size - (i + stride) + (stride - 1) =
            omega (arith, l, p) in
          omega (arith, first, ap (λ n. n / stride) e)
      | no l ↦
          let last : (size - i + (stride - 1) - stride) / stride ≡ 0 =
            div-eq_of_lt (omega (arith, l, h, p)) in
          omega (arith, first, last, places_end size stride (i + stride) p (omega (arith, l)))
    ]
