-- ===== src/Memory/Pattern.antt =====
-- src/memory_allocator_benchmarker.cpp: `PatternGenerator`.
pub mod Bounds
use context_switching.Prelude.{
  ℕ, ◌+◌, ◌-◌, ◌*◌, ◌/◌, ◌%◌, ◌^◌, Option, none, some, Bool, true, false, ltb, ◌==◌, if◌then◌else◌,
  ◌>>=◌,
}
use context_switching.Prelude.Words.{u64}
use context_switching.Prelude.Double.{Double}

pub data AllocationPattern : Type 0 where
  sequential random exponential bimodal realistic : AllocationPattern

-- `a % b`; `none` is a division by zero.
unfoldable pub remainder : ℕ → ℕ → Option ℕ
remainder a b = if b == 0 then none else some (a % b)

-- What the generator draws for one size: two numbers, and a fraction from 0 to 1.
pub record Draw (F : Double) : Type 0 where
  pub first : ℕ
  pub second : ℕ
  pub fraction : F.Num

-- The size that the realistic pattern chooses.
abbrev pub realistic_size : ℕ → ℕ → ℕ
realistic_size choice r =
    if ltb choice 40
    then 16 + r % 48
    else if ltb choice 70
    then 64 + r % 192
    else if ltb choice 90
    then 256 + r % 768
    else if ltb choice 98
    then 1024 + r % 3072
    else 4096 + r % 12288

-- `size_t` subtraction.
abbrev pub minus : ℕ → ℕ → ℕ
minus a b = u64 (a + (2 ^ 64 - b))

abbrev above : ℕ → ℕ → ℕ
above min_size r = u64 (min_size + r)

module _ (F : Double) (exp_of_minus : F.Num → F.Num) where
  open F use {Num, of_nat, sub, mul, div, trunc}

  -- `exp_of_minus x` is `std::exp(-x)`.
  abbrev exponential_size : ℕ → Num → ℕ
  exponential_size range r = trunc (
      div (mul (of_nat range) (sub (of_nat 1) (exp_of_minus (mul (of_nat 3) r))))
        (sub (of_nat 1) (exp_of_minus (of_nat 3))))

  unfoldable pub generate : AllocationPattern → ℕ → ℕ → ℕ → Draw F → Option ℕ
  generate sequential min_size max_size iteration d = do
    r ← remainder iteration (minus max_size min_size)
    some (above min_size r)
  generate random min_size max_size iteration d = do
    r ← remainder d.first (minus max_size min_size)
    some (above min_size r)
  generate exponential min_size max_size iteration d =
      some (above min_size (exponential_size (minus max_size min_size) d.fraction))
  generate bimodal min_size max_size iteration d =
      let tenth = minus max_size min_size / 10 in
      let low = d.first % 100 in
      do
        r ← remainder d.second tenth
        some (if ltb low 80 then above min_size r else minus max_size r)
  generate realistic min_size max_size iteration d = some (realistic_size (d.first % 100) d.second)
