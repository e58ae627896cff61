-- ===== src/Scheduler/Analyzer.antt =====
-- src/scheduler_analyzer_cpp.cpp: `SchedulerAnalyzer` and `ResourceMonitor`. Each thread writes its
-- own counters, so that a run is given by what happens to each thread: how often its workload goes
-- round, and what `getrusage` reports to it.
pub mod Totals
use context_switching.Prelude.{
  ℕ, zero, suc, ◌+◌, ◌*◌, Bool, List, [], ◌∷◌, ◌++◌, Option, none, some, map, ◌==◌, if◌then◌else◌,
  accumulate, is_empty, length,
}
use context_switching.Prelude.Int.{ℤ}
use context_switching.Prelude.Words.{u64}
use context_switching.Prelude.Double.{Double}
use context_switching.Scheduler.Stats.{
  WorkloadType, cpu_intensive, io_intensive, mixed, memory_intensive, ThreadStats, initial_stats,
}
use context_switching.Scheduler.Workload.{
  cpu_intensive_work, io_intensive_work, mixed_work, memory_intensive_work,
}
use context_switching.Scheduler.Fairness.{Report, analyze_fairness}

-- `struct rusage`, in microseconds and counts.
pub record Rusage : Type 0 where
  pub utime_sec : ℕ
  pub utime_usec : ℕ
  pub stime_sec : ℕ
  pub stime_usec : ℕ
  pub nvcsw : ℕ
  pub nivcsw : ℕ

-- What a thread meets: the rounds before the stop flag, for a mixed workload the kind of each
-- round, and the answer of `getrusage`.
pub record Job : Type 0 where
  pub rounds : ℕ
  pub choices : List Bool
  pub usage : Option Rusage

module _ (F : Double) where
  open F use {Num, of_nat, add, div}

  seconds : ℕ → ℕ → Num
  seconds sec usec = add (of_nat sec) (div (of_nat usec) (of_nat 1000000))

  record_usage : Option Rusage → ThreadStats F → ThreadStats F
  record_usage none s = s
  record_usage (some u) s = record s {
    cpu_time = add (seconds u.utime_sec u.utime_usec) (seconds u.stime_sec u.stime_usec);
    voluntary_switches = u64 u.nvcsw;
    involuntary_switches = u64 u.nivcsw;
    context_switches = u64 (u.nvcsw + u.nivcsw);
  }

  pub get_thread_stats : Option Rusage → ThreadStats F → ThreadStats F
  unfolding record_usage seconds
  get_thread_stats usage s = record_usage usage s

  abbrev run_workload : WorkloadType → Job → ThreadStats F → ThreadStats F
  run_workload cpu_intensive job s = cpu_intensive_work job.rounds s
  run_workload io_intensive job s = io_intensive_work job.rounds s
  run_workload mixed job s = mixed_work job.choices s
  run_workload memory_intensive job s = memory_intensive_work job.rounds s

  pub worker_thread : Job → ThreadStats F → ThreadStats F
  worker_thread job s = get_thread_stats job.usage (run_workload s.workload_type job s)

  -- The constructor: one record of counters for each thread.
  pub make_threads : ℕ → ℕ → List (ThreadStats F)
  make_threads zero i = []
  make_threads (suc n) i = initial_stats F i ∷ make_threads n (suc i)

  abbrev workload_of : ℕ → WorkloadType → WorkloadType
  workload_of choice old =
      if choice == 0
      then cpu_intensive
      else if choice == 1
      then io_intensive
      else if choice == 2
      then mixed
      else if choice == 3
      then memory_intensive
      else old

  -- The workload and the nice value of each thread, as the random generator draws them.
  pub configure_workloads : Bool → (ℕ → ℕ) → (ℕ → ℤ) → List (ThreadStats F) → List (ThreadStats F)
  configure_workloads use_nice choice nice [] = []
  configure_workloads use_nice choice nice (s ∷ ss) =
      record s {
        workload_type = workload_of (choice s.thread_id) s.workload_type;
        nice_value = if use_nice then nice s.thread_id else s.nice_value;
      }
      ∷ configure_workloads use_nice choice nice ss

  -- All workers, and then the wall time of the whole run.
  pub run_benchmark : (ℕ → Job) → Num → List (ThreadStats F) → List (ThreadStats F)
  run_benchmark jobs wall [] = []
  run_benchmark jobs wall (s ∷ ss) =
      record (worker_thread (jobs s.thread_id) s) { wall_time = wall } ∷ run_benchmark jobs wall ss

  pub record Summary : Type 0 where
    pub total_cpu_ops : ℕ
    pub total_io_ops : ℕ
    pub total_mem_ops : ℕ
    pub total_cpu_time : Num
    pub total_context_switches : ℕ

  abbrev empty_summary : Summary
  empty_summary = record {
    total_cpu_ops = 0;
    total_io_ops = 0;
    total_mem_ops = 0;
    total_cpu_time = of_nat 0;
    total_context_switches = 0;
  }

  pub add_thread : Summary → ThreadStats F → Summary
  add_thread t s = record {
    total_cpu_ops = u64 (t.total_cpu_ops + s.cpu_operations);
    total_io_ops = u64 (t.total_io_ops + s.io_operations);
    total_mem_ops = u64 (t.total_mem_ops + s.memory_operations);
    total_cpu_time = add t.total_cpu_time s.cpu_time;
    total_context_switches = u64 (t.total_context_switches + s.context_switches);
  }

  pub summarise : List (ThreadStats F) → Summary
  summarise = accumulate add_thread empty_summary

  abbrev pub total_operations : Summary → ℕ
  total_operations t = u64 (t.total_cpu_ops + t.total_io_ops + t.total_mem_ops)

  -- `run_analysis`: the report and the summary that it prints.
  pub run_analysis : Bool → (ℕ → ℕ) → (ℕ → ℤ) → (ℕ → Job) → Num → ℕ → Report F × Summary
  run_analysis use_nice choice nice jobs wall n =
      let ran =
        run_benchmark jobs wall (configure_workloads use_nice choice nice (make_threads n 0)) in
      ((analyze_fairness F ran).0, summarise ran)
