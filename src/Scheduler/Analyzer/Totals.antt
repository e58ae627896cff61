-- ===== src/Scheduler/Analyzer/Totals.antt =====
-- src/scheduler_analyzer_cpp.cpp: the totals that a whole run of the analyzer prints.
use context_switching.Prelude.{
  ℕ, zero, suc, ◌+◌, ◌*◌, ◌/◌, ◌%◌, ◌≡◌, refl, Bool, List, Option, none, some, arith, accumulate,
  if◌then◌else◌,
}
use context_switching.Prelude.Int.{ℤ, pos}
use context_switching.Prelude.Words.{u64}
use context_switching.Prelude.Double.{Double}
use context_switching.Scheduler.Stats.{
  WorkloadType, cpu_intensive, io_intensive, mixed, memory_intensive, ThreadStats, initial_stats,
}
use context_switching.Scheduler.Workload.Counts.{
  works, waits, cpu_work_counted, io_work_counted, mixed_work_counted, memory_work_counted,
}
use context_switching.Scheduler.Analyzer.{
  Rusage, Job, get_thread_stats, run_workload, worker_thread, make_threads, workload_of,
  configure_workloads, run_benchmark, Summary, empty_summary, add_thread, summarise,
  total_operations, run_analysis,
}

-- The operations that a thread's counters show at the end.
abbrev pub counted : WorkloadType → Job → ℕ
counted cpu_intensive job = 1000 * job.rounds
counted io_intensive job = job.rounds
counted mixed job = 100 * works job.choices + waits job.choices
counted memory_intensive job = 10000 * (job.rounds / 1250) + 17384 * (job.rounds % 1250)

-- f i + … + f (i + n - 1)
abbrev pub sum_range : ℕ → ℕ → (ℕ → ℕ) → ℕ
sum_range zero i f = 0
sum_range (suc n) i f = f i + sum_range n (suc i) f

module _ (F : Double) where
  abbrev thread_operations : ThreadStats F → ℕ
  thread_operations s = s.cpu_operations + s.io_operations + s.memory_operations

  run_workload_counted :
      (w : WorkloadType) (job : Job) (s : ThreadStats F)
      → s.cpu_operations ≡ 0
      → s.io_operations ≡ 0
      → s.memory_operations ≡ 0
      → u64 (thread_operations (run_workload F w job s)) ≡ u64 (counted w job)
  run_workload_counted cpu_intensive job s c i m =
      omega (arith, cpu_work_counted s job.rounds (omega arith))
  run_workload_counted io_intensive job s c i m =
      omega (arith, io_work_counted s job.rounds (omega arith))
  run_workload_counted mixed job s c i m = omega (arith, mixed_work_counted s job.choices)
  run_workload_counted memory_intensive job s c i m =
      omega (arith, memory_work_counted s job.rounds)

  -- `getrusage` adds nothing to the operations.
  get_thread_stats_keeps :
      (u : Option Rusage) (s : ThreadStats F)
      → thread_operations (get_thread_stats F u s) ≡ thread_operations s
  unfolding get_thread_stats
  get_thread_stats_keeps none s = refl
  get_thread_stats_keeps (some u) s = refl

  worker_counted :
      (job : Job) (s : ThreadStats F)
      → s.cpu_operations ≡ 0
      → s.io_operations ≡ 0
      → s.memory_operations ≡ 0
      → u64 (thread_operations (worker_thread F job s)) ≡ u64 (counted s.workload_type job)
  unfolding worker_thread
  worker_counted job s c i m = omega (
    arith,
    get_thread_stats_keeps job.usage (run_workload F s.workload_type job s),
    run_workload_counted s.workload_type job s c i m,
  )

  add_thread_operations :
      (t : Summary F) (s : ThreadStats F)
      → total_operations F (add_thread F t s) ≡ u64 (total_operations F t + thread_operations s)
  unfolding add_thread
  add_thread_operations t s = omega arith

  worker_switches :
      (u : Rusage) (job : Job) (s : ThreadStats F)
      → job.usage ≡ some u
      → (worker_thread F job s).context_switches ≡ u64 (u.nvcsw + u.nivcsw)
  unfolding worker_thread get_thread_stats
  worker_switches u job s e = rw (e, worker_thread)

  module _ (use_nice : Bool) (choice : ℕ → ℕ) (nice : ℕ → ℤ) (jobs : ℕ → Job) (wall : F.Num) where
    -- The threads from number `i` on, after the run.
    abbrev ran : ℕ → ℕ → List (ThreadStats F)
    ran n i =
        run_benchmark F jobs wall (configure_workloads F use_nice choice nice (make_threads F n i))

    abbrev count_of : ℕ → ℕ
    count_of i = counted (workload_of F (choice i) cpu_intensive) (jobs i)

    -- One thread before and after its run.
    abbrev ready : ℕ → ThreadStats F
    ready i = record (initial_stats F i) {
      workload_type = workload_of F (choice i) cpu_intensive;
      nice_value = if use_nice then nice i else pos 0;
    }

    abbrev ended : ℕ → ThreadStats F
    ended i = record (worker_thread F (jobs i) (ready i)) { wall_time = wall }

    total_from :
        (n i : ℕ) (t : Summary F)
        → total_operations F (accumulate (add_thread F) t (ran n i))
          ≡ u64 (total_operations F t + sum_range n i count_of)
    unfolding run_benchmark configure_workloads make_threads
    total_from zero i t = omega arith
    total_from (suc n) i t = omega (
      arith,
      total_from n (suc i) (add_thread F t (ended i)),
      add_thread_operations t (ended i),
      worker_counted (jobs i) (ready i) refl refl refl,
    )

    -- The total of operations that a run prints is the sum, in `uint64_t`, of what the workload of
    -- each thread counts: a thousand for each round of CPU work, one for each of I/O work, a
    -- hundred or one for each round of mixed work, and 17384 for each round of memory work that
    -- is not part of 1250, with 10000 for each 1250 rounds of it.
    pub total_operations_lem :
        (n : ℕ)
        → total_operations F (run_analysis F use_nice choice nice jobs wall n).1
          ≡ u64 (sum_range n 0 count_of)
    unfolding run_analysis summarise
    total_operations_lem n = omega (arith, total_from n 0 (empty_summary F))

    switches_from :
        (u : Rusage) (n i : ℕ) (t : Summary F)
        → ((j : ℕ) → (jobs j).usage ≡ some u)
        → u64 (accumulate (add_thread F) t (ran n i)).total_context_switches
          ≡ u64 (t.total_context_switches + n * (u.nvcsw + u.nivcsw))
    unfolding run_benchmark configure_workloads make_threads add_thread
    switches_from u zero i t h = omega arith
    switches_from u (suc n) i t h = omega (
      arith,
      switches_from u n (suc i) (add_thread F t (ended i)) h,
      worker_switches u (jobs i) (ready i) (h i),
    )

    -- `getrusage(RUSAGE_SELF)` reports on the process: where every thread gets the same answer, the
    -- total of context switches that a run prints is the number of threads times those of the
    -- process, in `uint64_t`.
    total_context_switches_lem :
        (u : Rusage) (n : ℕ)
        → ((j : ℕ) → (jobs j).usage ≡ some u)
        → u64 (run_analysis F use_nice choice nice jobs wall n).1.total_context_switches
          ≡ u64 (n * (u.nvcsw + u.nivcsw))
    unfolding run_analysis summarise
    total_context_switches_lem u n h = omega (arith, switches_from u n 0 (empty_summary F) h)
