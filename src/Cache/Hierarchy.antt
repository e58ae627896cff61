-- ===== src/Cache/Hierarchy.antt =====
-- src/cache_analyzer_cpp.cpp: the sizes and the totals of `cache_hierarchy_analysis`, and the strides of
-- `prefetcher_analysis`.
pub mod Percentages
use context_switching.Prelude.{
  ℕ, ◌+◌, ◌*◌, ◌/◌, List, [], ◌∷◌, Option, accumulate, leb, if◌then◌else◌,
}
use context_switching.Prelude.Words.{u64}
use context_switching.Prelude.Double.{Double}
use context_switching.Cache.Metrics.{AccessPattern, SystemInfo, Estimates, calculate_estimates}
use context_switching.Cache.Access.{strided}

pub test_sizes : SystemInfo → List ℕ
test_sizes sys =
    sys.l1_size / 2
    ∷ u64 (sys.l1_size * 2)
    ∷ u64 (sys.l2_size * 2)
    ∷ u64 (sys.l3_size * 2)
    ∷ u64 (sys.l3_size * 8)
    ∷ []

-- What a thread's test returns: the number of its accesses, and the estimates for them.
pub record Result : Type 0 where
  pub total_accesses : ℕ
  pub estimates : Estimates

-- The end of `run_memory_test`, after so many accesses.
pub estimated : (F : Double) → AccessPattern → ℕ → SystemInfo → ℕ → Result
estimated F pattern memory_size sys total_accesses = record {
  total_accesses = total_accesses;
  estimates = calculate_estimates F pattern total_accesses memory_size sys;
}

pub record Totals : Type 0 where
  pub total_l1_hits : ℕ
  pub total_l2_hits : ℕ
  pub total_memory : ℕ
  pub total_accesses : ℕ

abbrev pub no_totals : Totals
no_totals = record { total_l1_hits = 0; total_l2_hits = 0; total_memory = 0; total_accesses = 0 }

pub add_result : Totals → Result → Totals
add_result t r = record {
  total_l1_hits = u64 (t.total_l1_hits + r.estimates.estimated_l1_hits);
  total_l2_hits = u64 (t.total_l2_hits + r.estimates.estimated_l2_hits);
  total_memory = u64 (t.total_memory + r.estimates.estimated_memory_accesses);
  total_accesses = u64 (t.total_accesses + r.total_accesses);
}

pub totals : List Result → Totals
unfolding add_result
totals = accumulate add_result no_totals

-- `prefetcher_analysis`: the strides, the accesses with one of them, and what is said of it.
abbrev pub prefetcher_strides : List ℕ
prefetcher_strides = 1 ∷ 2 ∷ 4 ∷ 8 ∷ 16 ∷ 32 ∷ 64 ∷ 128 ∷ 256 ∷ 512 ∷ []

pub data Effectiveness : Type 0 where
  high medium low : Effectiveness

pub effectiveness : ℕ → Effectiveness
effectiveness stride = if leb stride 64 then high else if leb stride 256 then medium else low
