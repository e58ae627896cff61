-- ===== src/Prelude/Double.antt =====
-- `double`: its operations as an interface, with the laws that the code's comparisons rely on.
use native.Mathlib.Nat.{div-lt_iff_lt-mul, mul-le-mul_left, mul-le-mul_right}
use context_switching.Prelude.{ℕ, ◌+◌, ◌-◌, ◌*◌, ◌/◌, ◌≤◌, ◌<◌, ◌≡◌, Bool, true, false, ltb, arith}

-- `of_nat` is the conversion of an unsigned integer, `trunc` the cast of a value from 0 on to one.
pub record Double : Type 1 where
  pub Num : Type 0
  pub of_nat : ℕ → Num
  pub add : Num → Num → Num
  pub sub : Num → Num → Num
  pub mul : Num → Num → Num
  pub div : Num → Num → Num
  pub sqrt : Num → Num
  pub lt : Num → Num → Bool
  pub trunc : Num → ℕ

module _ (F : Double) where
  open F use {Num, of_nat, add, sub, mul, div, lt, trunc}

  -- The literal n / d: the division of two exact values rounds as the literal does.
  abbrev pub literal : ℕ → ℕ → Num
  literal n d = div (of_nat n) (of_nat d)

  -- `<` on values that are not NaN is a strict weak order.
  pub record IsOrdered : Type 0 where
    pub asym : (a b : Num) → lt a b ≡ true → lt b a ≡ false
    pub negative_trans : (a b c : Num) → lt b a ≡ false → lt c b ≡ false → lt c a ≡ false

  -- A fraction p / q below 1 of a positive size, cut to an integer, lies below the size.
  pub record IsScaling : Type 0 where
    pub trunc-mul-lt :
        (n p q : ℕ) → 0 < n → p < q → q ≤ 1000 → trunc (mul (of_nat n) (literal p q)) < n

  -- A larger fraction of a size is not cut to a smaller integer.
  pub record IsMonotone : Type 0 where
    pub trunc-mul-le :
        (n p q : ℕ)
        → p ≤ q
        → q ≤ 100
        → trunc (mul (literal p 100) (of_nat n)) ≤ trunc (mul (literal q 100) (of_nat n))

  -- Where a value lies in a range, its part of the range is from 0 to 1, and n times such a part is from
  -- 0 to n. This holds of finite values, whose differences are finite, since rounding keeps the order.
  pub record IsInterpolating : Type 0 where
    pub sub-bounds :
        (a t b : Num)
        → lt t a ≡ false
        → lt b t ≡ false
        → (lt (sub t a) (of_nat 0) ≡ false) × (lt (sub b a) (sub t a) ≡ false)
    pub div-bounds :
        (x y : Num)
        → lt x (of_nat 0) ≡ false
        → lt y x ≡ false
        → lt (of_nat 0) y ≡ true
        → (lt (div x y) (of_nat 0) ≡ false) × (lt (of_nat 1) (div x y) ≡ false)
    pub mul-bounds :
        (x : Num) (n : ℕ)
        → n ≤ 1000
        → lt x (of_nat 0) ≡ false
        → lt (of_nat 1) x ≡ false
        → (lt (mul x (of_nat n)) (of_nat 0) ≡ false) × (trunc (mul x (of_nat n)) ≤ n)
    pub add-pos : (x : Num) → lt x (of_nat 0) ≡ false → lt (of_nat 0) (add x (of_nat 1)) ≡ true

-- Hundredths: a model in which the laws hold, for concrete inputs.
abbrev pub hundredths : Double
hundredths = record {
  Num = ℕ;
  of_nat = λ n. 100 * n;
  add = λ a b. a + b;
  sub = λ a b. a - b;
  mul = λ a b. a * b / 100;
  div = λ a b. a * 100 / b;
  sqrt = λ a. a;
  lt = ltb;
  trunc = λ a. a / 100;
}

pub hundredths-IsOrdered : IsOrdered hundredths
hundredths-IsOrdered = record {
  asym = λ a b h. ground arith;
  negative_trans = λ a b c h k. ground arith;
}

-- A fraction below 1 is at most 99 hundredths.
fraction-le : (p q : ℕ) → p < q → 100 * p * 100 / (100 * q) ≤ 99
fraction-le p q k = omega (
  arith,
  (div-lt_iff_lt-mul {k = 100 * q} {x = 100 * p * 100} {y = 100} (omega arith)).1 (omega arith),
)

pub hundredths-IsScaling : IsScaling hundredths
hundredths-IsScaling = record {
  trunc-mul-lt = λ n p q h k l.
      let f = fraction-le p q k in
      let product : 100 * n * (100 * p * 100 / (100 * q)) ≤ 100 * n * 99 =
        mul-le-mul_left (100 * n) f in
      omega arith;
}

percent : (p : ℕ) → 100 * p * 100 / (100 * 100) ≡ p
percent p = omega arith

pub hundredths-IsMonotone : IsMonotone hundredths
hundredths-IsMonotone = record {
  trunc-mul-le = λ n p q h l.
      let product : p * n ≤ q * n = mul-le-mul_right n h in rw (percent p, percent q) (omega arith);
}

pub hundredths-IsInterpolating : IsInterpolating hundredths
hundredths-IsInterpolating = record {
  sub-bounds = λ a t b h k. ground arith;
  div-bounds = λ x y h k l.
      let small =
        (div-lt_iff_lt-mul {k = y} {x = x * 100} {y = 101} (ground arith)).1 (ground arith) in
      ground (arith, small);
  mul-bounds = λ x n small h k.
      let product : x * (100 * n) ≤ 100 * (100 * n) = mul-le-mul_right (100 * n) (ground arith) in
      ground (arith, product);
  add-pos = λ x h. ground arith;
}
