-- ===== src/Cache/Metrics/Sums.antt =====
-- src/cache_analyzer_cpp.cpp, `calculate_estimates`: the estimates add up.
use native.Mathlib.Nat.{mul-le-mul_left}
use context_switching.Prelude.{ℕ, ◌+◌, ◌*◌, ◌/◌, ◌^◌, ◌≤◌, ◌<◌, ◌≡◌, arith}
use context_switching.Prelude.Fraction.{exact}
use context_switching.Cache.Metrics.{
  AccessPattern, sequential, random, stride, pointer_chase, false_sharing, cache_friendly,
  SystemInfo, rates_of, less, calculate_estimates,
}

-- The rates of a row are at most one together.
rates-bound :
    (pattern : AccessPattern) (size : ℕ) (sys : SystemInfo)
    → let r = rates_of pattern size sys in r.l1_hit_rate + r.l2_hit_rate + r.l3_hit_rate ≤ 100
unfolding rates_of
rates-bound sequential size sys = ground arith
rates-bound random size sys = ground arith
rates-bound stride size sys = ground arith
rates-bound pointer_chase size sys = omega arith
rates-bound false_sharing size sys = omega arith
rates-bound cache_friendly size sys = omega arith

shares-bound :
    (t a b c : ℕ) → a + b + c ≤ 100 → t * (a * 1) / 100 + t * (b * 1) / 100 + t * (c * 1) / 100 ≤ t
shares-bound t a b c h = omega (arith, mul-le-mul_left t h)

less_three :
    (t a b c : ℕ)
    → t < 2 ^ 64
    → a + b + c ≤ t
    → a + b + c + less exact (less exact (less exact t a) b) c ≡ t
less_three t a b c h k = omega (arith, h, k)

-- In exact arithmetic, whatever the pattern and the size, the estimated hits and memory accesses are
-- together the accesses, below 2^64: the subtractions do not wrap round.
pub estimates_add_up :
    (pattern : AccessPattern) (total size : ℕ) (sys : SystemInfo)
    → total < 2 ^ 64
    → let e = calculate_estimates exact pattern total size sys in
      e.estimated_l1_hits + e.estimated_l2_hits + e.estimated_l3_hits + e.estimated_memory_accesses
      ≡ total
unfolding calculate_estimates
estimates_add_up pattern total size sys h =
    let r = rates_of pattern size sys in
    less_three total _ _ _ h
      (shares-bound total r.l1_hit_rate r.l2_hit_rate r.l3_hit_rate (rates-bound pattern size sys))
