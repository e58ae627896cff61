-- ===== src/Lock/Analysis/Sums.antt =====
-- src/lock_visualizer_cpp.cpp, `analyze_results`: the totals against what the workers did.
use context_switching.Prelude.{
  ℕ, zero, suc, ◌<◌, ◌≡◌, refl, ap, List, [], ◌∷◌, ◌++◌, arith, accumulate,
}
use context_switching.Prelude.Words.{u64}
use context_switching.Prelude.Double.{Double}
use context_switching.Prelude.Threads.{weigh, weigh_none, weigh-suc, weigh-zero}
use context_switching.Lock.Statistics.{ThreadStatistics}
use context_switching.Lock.Workload.{LockType}
use context_switching.Lock.Spin.{ended, System, Reach}
use context_switching.Lock.Spin.Invariant.{in_flight}
use context_switching.Lock.Spin.Safety.{no_lost_update}
use context_switching.Lock.Analysis.{Totals, no_totals, add_thread, totals_of, analyze_results}

pub accumulate-append {ℓ κ} :
    {A : Type ℓ} {B : Type κ} (f : B → A → B) (b : B) (xs ys : List A)
    → accumulate f b (xs ++ ys) ≡ accumulate f (accumulate f b xs) ys
accumulate-append f b [] ys = refl
accumulate-append f b (x ∷ xs) ys = accumulate-append f (f b x) xs ys

-- The first n threads in order.
abbrev pub listed {ℓ} : {A : Type ℓ} → ℕ → (ℕ → A) → List A
listed zero f = []
listed (suc n) f = listed n f ++ f n ∷ []

module _ {F : Double} where
  total_writes_lem :
      (n : ℕ) (stats : ℕ → ThreadStatistics F)
      → u64 ((totals_of F (listed n stats)).total_writes)
        ≡ u64 (weigh (λ (s : ThreadStatistics F). s.write_operations) n stats)
  unfolding totals_of add_thread
  total_writes_lem zero stats =
      omega (arith, weigh-zero (λ (s : ThreadStatistics F). s.write_operations) stats)
  total_writes_lem (suc n) stats = omega (
    arith,
    ap (λ (t : Totals F). t.total_writes)
        (accumulate-append (add_thread F) (no_totals F) (listed n stats) (stats n ∷ [])),
    total_writes_lem n stats,
    weigh-suc (λ (s : ThreadStatistics F). s.write_operations) n stats,
  )

  -- When every worker under a spin lock has ended, the write operations that the analysis prints are
  -- the shared counter, modulo 2^64: none is lost, none is counted twice.
  pub printed_writes :
      {n : ℕ} {s : System F} (duration : F.Num) (lock : LockType)
      → Reach F n s
      → ((i : ℕ) → i < n → s.place i ≡ ended)
      → u64 ((analyze_results F lock duration (listed n s.stats)).totals.total_writes)
        ≡ u64 s.mem.shared_counter
  unfolding analyze_results
  printed_writes {n} {s} duration lock r e =
      let none = weigh_none in_flight n s.place (λ i l. ap in_flight (e i l)) in
      omega (arith, total_writes_lem n s.stats, no_lost_update r, none)
