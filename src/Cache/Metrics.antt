-- ===== src/Cache/Metrics.antt =====
-- src/cache_analyzer_cpp.cpp: `SystemInfo` and `CachePerformanceMetrics`.
pub mod Sums
use context_switching.Prelude.{ℕ, ◌+◌, ◌-◌, ◌*◌, ◌^◌, Bool, true, false, leb, ◌==◌, if◌then◌else◌}
use context_switching.Prelude.Words.{u64}
use context_switching.Prelude.Double.{Double, literal}

pub data AccessPattern : Type 0 where
  sequential random stride pointer_chase false_sharing cache_friendly : AccessPattern

pub record SystemInfo : Type 0 where
  pub l1_size : ℕ
  pub l2_size : ℕ
  pub l3_size : ℕ

abbrev pub kb : ℕ
kb = 1024

abbrev or_else : ℕ → ℕ → ℕ
or_else size fallback = if size == 0 then fallback else size

-- The sizes that the system gives, 0 for one that it does not give.
unfoldable pub detect : ℕ → ℕ → ℕ → SystemInfo
detect l1 l2 l3 = record {
  l1_size = or_else l1 (32 * kb);
  l2_size = or_else l2 (256 * kb);
  l3_size = or_else l3 (8 * kb * kb);
}

-- Hit rates, in hundredths.
pub record Rates : Type 0 where
  pub l1_hit_rate : ℕ
  pub l2_hit_rate : ℕ
  pub l3_hit_rate : ℕ

abbrev pub hit_rates : ℕ → ℕ → ℕ → Rates
hit_rates l1 l2 l3 = record { l1_hit_rate = l1; l2_hit_rate = l2; l3_hit_rate = l3 }

unfoldable pub rates_of : AccessPattern → ℕ → SystemInfo → Rates
rates_of sequential size sys =
    if leb size sys.l1_size
    then hit_rates 95 4 1
    else if leb size sys.l2_size
    then hit_rates 30 65 4
    else if leb size sys.l3_size
    then hit_rates 10 20 65
    else hit_rates 5 10 30
rates_of random size sys =
    if leb size sys.l1_size
    then hit_rates 80 15 5
    else if leb size sys.l2_size
    then hit_rates 15 70 10
    else if leb size sys.l3_size
    then hit_rates 5 15 60
    else hit_rates 2 5 20
rates_of stride size sys = if leb size sys.l2_size then hit_rates 60 35 4 else hit_rates 20 40 35
rates_of pointer_chase size sys = hit_rates 50 30 15
rates_of false_sharing size sys = hit_rates 50 30 15
rates_of cache_friendly size sys = hit_rates 50 30 15

pub record Estimates : Type 0 where
  pub estimated_l1_hits : ℕ
  pub estimated_l2_hits : ℕ
  pub estimated_l3_hits : ℕ
  pub estimated_memory_accesses : ℕ

module _ (F : Double) where
  abbrev pub share_of : ℕ → ℕ → ℕ
  share_of total rate = F.trunc (F.mul (F.of_nat total) (literal F rate 100))

  -- `a - b` on `uint64_t`
  abbrev pub less : ℕ → ℕ → ℕ
  less a b = u64 (a + (2 ^ 64 - u64 b))

  unfoldable pub calculate_estimates : AccessPattern → ℕ → ℕ → SystemInfo → Estimates
  calculate_estimates pattern total_accesses data_size sys =
      let rates = rates_of pattern data_size sys in
      let l1 = share_of total_accesses rates.l1_hit_rate in
      let l2 = share_of total_accesses rates.l2_hit_rate in
      let l3 = share_of total_accesses rates.l3_hit_rate in
      record {
        estimated_l1_hits = l1;
        estimated_l2_hits = l2;
        estimated_l3_hits = l3;
        estimated_memory_accesses = less (less (less total_accesses l1) l2) l3;
      }
