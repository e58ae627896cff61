-- ===== src/Lock/Analysis.antt =====
-- src/lock_visualizer_cpp.cpp: `analyze_results` and `provide_recommendations`.
pub mod Sums
pub mod Maximum
pub mod Verdicts
use context_switching.Prelude.{
  ℕ, zero, suc, ◌+◌, List, [], ◌∷◌, ◌++◌, Bool, true, false, ltb, if◌then◌else◌, accumulate,
}
use context_switching.Prelude.Words.{u64}
use context_switching.Prelude.Double.{Double, literal}
use context_switching.Lock.Statistics.{ThreadStatistics}
use context_switching.Lock.Workload.{
  LockType, mutex, recursive_mutex, shared_mutex, spinlock, adaptive_mutex,
}

pub data Contention : Type 0 where
  high moderate low : Contention

-- The lines on the type of the lock.
pub data Hint : Type 0 where
  consider_shared_mutex consider_spinlock consider_mutex : Hint

pub record Advice : Type 0 where
  pub contention : Contention
  pub high_wait : Bool
  pub hints : List Hint

-- The members that `provide_recommendations` reads. Nothing writes them: the totals of
-- `analyze_results` are its own.
pub record Members : Type 0 where
  pub total_reads : ℕ
  pub total_writes : ℕ

abbrev pub members : Members
members = record { total_reads = 0; total_writes = 0 }

module _ (F : Double) where
  open F use {Num, of_nat, add, div, lt}

  pub record Totals : Type 0 where
    pub total_acquisitions : ℕ
    pub total_contentions : ℕ
    pub total_reads : ℕ
    pub total_writes : ℕ
    pub total_wait_time : Num
    pub max_wait_time : Num

  abbrev pub no_totals : Totals
  no_totals = record {
    total_acquisitions = 0;
    total_contentions = 0;
    total_reads = 0;
    total_writes = 0;
    total_wait_time = of_nat 0;
    max_wait_time = of_nat 0;
  }

  pub add_thread : Totals → ThreadStatistics F → Totals
  add_thread t s = record {
    total_acquisitions = u64 (t.total_acquisitions + s.lock_acquisitions);
    total_contentions = u64 (t.total_contentions + s.lock_contentions);
    total_reads = u64 (t.total_reads + s.read_operations);
    total_writes = u64 (t.total_writes + s.write_operations);
    total_wait_time = add t.total_wait_time s.total_wait_time;
    max_wait_time = if lt t.max_wait_time s.max_wait_time then s.max_wait_time else t.max_wait_time;
  }

  pub totals_of : List (ThreadStatistics F) → Totals
  totals_of = accumulate add_thread no_totals

  pub contention_rate : Totals → Num
  contention_rate t =
      if ltb 0 t.total_acquisitions
      then div (of_nat t.total_contentions) (of_nat t.total_acquisitions)
      else of_nat 0

  pub avg_wait_time : Totals → Num
  avg_wait_time t =
      if ltb 0 t.total_acquisitions
      then div t.total_wait_time (of_nat t.total_acquisitions)
      else of_nat 0

  pub throughput : Totals → Num → Num
  throughput t duration = div (of_nat (u64 (t.total_reads + t.total_writes))) duration

  pub contention_of : Num → Contention
  contention_of rate =
      if lt (literal F 5 10) rate then high else if lt (literal F 2 10) rate then moderate else low

  abbrev pub hints_for : LockType → Members → Num → List Hint
  hints_for mutex m rate =
      if lt (literal F 3 10) rate then consider_shared_mutex ∷ consider_spinlock ∷ [] else []
  hints_for spinlock m rate = if lt (literal F 4 10) rate then consider_mutex ∷ [] else []
  hints_for shared_mutex m rate =
      if ltb m.total_reads m.total_writes then consider_mutex ∷ [] else []
  hints_for recursive_mutex m rate = []
  hints_for adaptive_mutex m rate = []

  pub provide_recommendations : LockType → Members → Num → Num → Advice
  provide_recommendations lock m rate avg_wait = record {
    contention = contention_of rate;
    high_wait = lt (literal F 1 1000) avg_wait;
    hints = hints_for lock m rate;
  }

  pub record Analysis : Type 0 where
    pub totals : Totals
    pub rate : Num
    pub avg_wait : Num
    pub ops_per_sec : Num
    pub advice : Advice

  pub analyze_results : LockType → Num → List (ThreadStatistics F) → Analysis
  analyze_results lock duration threads =
      let t = totals_of threads in
      record {
        totals = t;
        rate = contention_rate t;
        avg_wait = avg_wait_time t;
        ops_per_sec = throughput t duration;
        advice = provide_recommendations lock members (contention_rate t) (avg_wait_time t);
      }
