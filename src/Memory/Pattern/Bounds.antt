-- ===== src/Memory/Pattern/Bounds.antt =====
-- src/memory_allocator_benchmarker.cpp, `PatternGenerator`: the sizes that each pattern gives.
use context_switching.Prelude.{
  ℕ, ◌+◌, ◌-◌, ◌/◌, ◌%◌, ◌^◌, ◌≤◌, ◌<◌, ◌≡◌, ◌≢◌, refl, ◌↔◌, none, some, ltb, if◌then◌else◌, arith,
}
use context_switching.Prelude.Double.{Double}
use context_switching.Memory.Pattern.{
  AllocationPattern, sequential, random, exponential, bimodal, realistic, remainder, Draw,
  realistic_size, minus, generate,
}

-- The least size of a pattern, and a bound above all.
abbrev pub least_size : AllocationPattern → ℕ → ℕ
least_size realistic min_size = 16
least_size _ min_size = min_size

abbrev pub size_limit : AllocationPattern → ℕ → ℕ
size_limit realistic max_size = 16384
size_limit bimodal max_size = max_size + 1
size_limit _ max_size = max_size

-- What the pattern divides by, 1 where it does not divide.
abbrev pub divisor : AllocationPattern → ℕ → ℕ
divisor sequential range = range
divisor random range = range
divisor bimodal range = range / 10
divisor _ range = 1

bounded : (a i b : ℕ) → a < b → a + i % (b - a) < b
bounded a i b h = ground arith

below_tenth : (r a b : ℕ) → a + 10 ≤ b → r % ((b - a) / 10) + 1 ≤ (b - a) / 10
below_tenth r a b h = ground arith

minus_exact : (a b : ℕ) → a ≤ b → b < 2 ^ 64 → minus b a ≡ b - a
minus_exact a b l h = omega (arith, l, h)

remainder-some : (a b : ℕ) → 0 < b → remainder a b ≡ some (a % b)
unfolding remainder
remainder-some a b h = ground arith

module _ (F : Double) (exp_of_minus : F.Num → F.Num) where
  -- For a least and a largest size of type size_t that are at least ten apart, every pattern but the exponential one
  -- gives a size without dividing by zero: from the least to the largest size, which only the bimodal
  -- pattern reaches, or from 16 to 16383, whatever the sizes asked for, by the realistic one.
  pub generate_bounds :
      (pattern : AllocationPattern) (min_size max_size iteration : ℕ) (d : Draw F)
      → pattern ≢ exponential
      → min_size + 10 ≤ max_size
      → max_size < 2 ^ 64
      → (size : ℕ) × (generate F exp_of_minus pattern min_size max_size iteration d ≡ some size)
        × (least_size pattern min_size ≤ size)
        × (size < size_limit pattern max_size)
  unfolding generate remainder
  generate_bounds sequential a b i d p l h =
      (a + i % (b - a), ground arith, omega arith, bounded a i b (omega arith))
  generate_bounds random a b i d p l h =
      (a + d.first % (b - a), ground arith, omega arith, bounded a d.first b (omega arith))
  generate_bounds exponential a b i d p l h = absurd (p refl)
  generate_bounds bimodal a b i d p l h =
      let r = d.second % ((b - a) / 10) in
      let small : r + 1 ≤ (b - a) / 10 = below_tenth d.second a b l in
      (
        (if ltb (d.first % 100) 80 then a + r else b - r),
        rw
            (
              minus_exact a b (omega (arith, l)) h,
              remainder-some d.second ((b - a) / 10) (omega (arith, small)),
            )
            (ground (arith, small, l, h)),
        ground (arith, small),
        ground (arith, small),
      )
  generate_bounds realistic a b i d p l h =
      (realistic_size (d.first % 100) d.second, refl, ground arith, ground arith)

  -- An index below n.
  pub random_index :
      (n i : ℕ) (d : Draw F)
      → 0 < n
      → n < 2 ^ 64
      → generate F exp_of_minus random 0 n i d ≡ some (d.first % n)
  unfolding generate remainder
  random_index n i d p q = ground (arith, p, q)

  -- The generator divides by zero exactly when the divisor of its pattern is 0: the range of the
  -- sizes for the sequential and the random pattern, a tenth of it for the bimodal one.
  generate_fails :
      (pattern : AllocationPattern) (min_size max_size iteration : ℕ) (d : Draw F)
      → (generate F exp_of_minus pattern min_size max_size iteration d ≡ none)
        ↔ (divisor pattern (minus max_size min_size) ≡ 0)
  unfolding generate remainder
  generate_fails sequential a b i d = (λ e. ground (arith, e), λ e. ground (arith, e))
  generate_fails random a b i d = (λ e. ground (arith, e), λ e. ground (arith, e))
  generate_fails exponential a b i d = (λ e. cc, λ e. absurd (omega (arith, e)))
  generate_fails bimodal a b i d = (λ e. ground (arith, e), λ e. ground (arith, e))
  generate_fails realistic a b i d = (λ e. cc, λ e. absurd (omega (arith, e)))
