-- ===== src/Prelude/Fraction.antt =====
-- Fractions of natural numbers: a model of `double` in which sums, products and quotients are exact.
use context_switching.Prelude.{ℕ, ◌+◌, ◌-◌, ◌*◌, ◌/◌, ltb}
use context_switching.Prelude.Double.{Double}

pub record Fraction : Type 0 where
  pub num : ℕ
  pub den : ℕ

-- A difference below 0 is cut to 0, and a root is not taken.
abbrev pub exact : Double
exact = record {
  Num = Fraction;
  of_nat = λ n. record { num = n; den = 1 };
  add = λ a b. record { num = a.num * b.den + b.num * a.den; den = a.den * b.den };
  sub = λ a b. record { num = a.num * b.den - b.num * a.den; den = a.den * b.den };
  mul = λ a b. record { num = a.num * b.num; den = a.den * b.den };
  div = λ a b. record { num = a.num * b.den; den = a.den * b.num };
  sqrt = λ a. a;
  lt = λ a b. ltb (a.num * b.den) (b.num * a.den);
  trunc = λ a. a.num / a.den;
}
