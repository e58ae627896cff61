-- ===== src/Scheduler/Fairness.antt =====
-- src/scheduler_analyzer_cpp.cpp: `FairnessAnalyzer`.
pub mod Jain
use context_switching.Prelude.{
  ℕ, suc, ◌+◌, ◌-◌, Bool, List, [], ◌∷◌, map, ltb, if◌then◌else◌, is_empty, length, accumulate,
}
use context_switching.Prelude.Words.{u64}
use context_switching.Prelude.Double.{Double, literal}
use context_switching.Scheduler.Stats.{ThreadStats}

-- The line on the distribution of CPU time.
pub data Verdict : Type 0 where
  excellent good moderate poor : Verdict

pub record Report (F : Double) : Type 0 where
  pub jains_index_cpu : F.Num
  pub jains_index_ops : F.Num
  pub cv_cpu : F.Num
  pub cv_ops : F.Num
  pub verdict : Verdict

module _ (F : Double) where
  open F use {Num, of_nat, add, sub, mul, div, sqrt, lt}

  unfoldable pub calculate_jains_index : List Num → Num
  calculate_jains_index values =
      if is_empty values
      then of_nat 0
      else let total = accumulate add (of_nat 0) values in
        let sum_of_squares = accumulate (λ acc v. add acc (mul v v)) (of_nat 0) values in
        div (mul total total) (mul (of_nat (length values)) sum_of_squares)

  -- `x != 0.0`, by the order
  abbrev pub not_zero : Num → Bool
  not_zero x = if lt x (of_nat 0) then Bool.true else lt (of_nat 0) x

  unfoldable pub calculate_coefficient_of_variation : List Num → Num
  calculate_coefficient_of_variation values =
      if ltb (length values) 2
      then of_nat 0
      else let mean = div (accumulate add (of_nat 0) values) (of_nat (length values)) in
        let squares = accumulate (λ v x. add v (mul (sub x mean) (sub x mean))) (of_nat 0) values in
        let std_dev = sqrt (div squares (of_nat (length values - 1))) in
        if not_zero mean then div std_dev mean else of_nat 0

  unfoldable pub verdict_of : Num → Verdict
  verdict_of jains_index_cpu =
      if lt (literal F 9 10) jains_index_cpu
      then excellent
      else if lt (literal F 7 10) jains_index_cpu
      then good
      else if lt (literal F 5 10) jains_index_cpu
      then moderate
      else poor

  pub operation_count : ThreadStats F → Num
  operation_count s = of_nat (u64 (s.cpu_operations + s.io_operations + s.memory_operations))

  pub fairness_report : List (ThreadStats F) → Report F
  unfolding operation_count
  fairness_report threads =
      let cpu_times = map (λ s. s.cpu_time) threads in
      let operation_counts = map operation_count threads in
      record {
        jains_index_cpu = calculate_jains_index cpu_times;
        jains_index_ops = calculate_jains_index operation_counts;
        cv_cpu = calculate_coefficient_of_variation cpu_times;
        cv_ops = calculate_coefficient_of_variation operation_counts;
        verdict = verdict_of (calculate_jains_index cpu_times);
      }

  -- The report, and the copies of the counters with their score.
  pub analyze_fairness : List (ThreadStats F) → Report F × List (ThreadStats F)
  analyze_fairness threads =
      let report = fairness_report threads in
      let score = div (add report.jains_index_cpu report.jains_index_ops) (of_nat 2) in
      (report, map (λ (s : ThreadStats F). record s { fairness_score = score }) threads)
