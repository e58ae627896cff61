-- ===== src/Disk/Tests.antt =====
-- src/disk_io_analyzer_cpp.cpp: the analyzer on concrete inputs.
use native.Mathlib.Decide.{ℕ_discrete}
use context_switching.Prelude.{
  ℕ, ◌+◌, ◌-◌, ◌*◌, ◌/◌, ◌%◌, ◌^◌, ◌<◌, ◌≤◌, ◌≡◌, refl, inl, Bool, true, false, List, [], ◌∷◌, some,
  ltb, All, length, sum, arith,
}
use context_switching.Prelude.Int.{pos, negsuc}
use context_switching.Prelude.CommandLine.{Opt, run, getopt_loop, stoi}
use context_switching.Prelude.Double.{hundredths, hundredths-IsOrdered}
use context_switching.Prelude.Threads.{put}
use context_switching.Disk.Statistics.{
  IoStatistics, count_transfer, add_latency, no_statistics, mixed, sequential_write,
}
use context_switching.Disk.Executor.{Round, execute, round, random, finish, start_with}
use context_switching.Disk.Executor.Totals.{mixed_shares}
use context_switching.Disk.Executor.Offsets.{execute_in_file}
use context_switching.Disk.Workers.{
  System, Steps, done, next, initial, waiting, gone, sleeping, executing, launch, all_launched,
  open_file, open_fails, arrive, pass, opening, ready,
}
use context_switching.Disk.Workers.Barrier.{start_together, pending}
use context_switching.Disk.Workers.Hangs.{Waits, barrier_hangs}
use context_switching.Disk.Files.{mb, create_test_file}
use context_switching.Disk.Files.Chunks.{create_test_file_lem}
use context_switching.Disk.Metrics.{calculate_aggregate_metrics, no_metrics}
use context_switching.Disk.Metrics.Totals.{Sums, Within, calculate_aggregate_metrics_lem}
use context_switching.Disk.CommandLine.{default_config, read_options}
use context_switching.Disk.Plan.{plan}
use context_switching.Disk.Plan.Fits.{StaysInFile, planned_in_file}

-- The second of four calls fails.
abbrev four_rounds : List (Round hundredths)
four_rounds =
    record { draw = 2; result = pos 4096; latency = 5 }
    ∷ record { draw = 0; result = negsuc 0; latency = 1 }
    ∷ record { draw = 1; result = pos 4096; latency = 3 }
    ∷ record { draw = 2; result = pos 100; latency = 9 }
    ∷ []

mixed_shares_example :
    let s =
      (execute 12288 4096 mixed four_rounds (start_with (no_statistics hundredths))).0.stats in
    let n = length s.latency_samples in
    (s.write_operations ≡ (n + 2) / 3) × (s.read_operations ≡ n - (n + 2) / 3)
unfolding execute round random finish count_transfer add_latency
mixed_shares_example = mixed_shares 12288 4096 four_rounds (omega arith)

execute_in_file_example :
    All
      (λ c. (c.file_offset % 4096 ≡ 0) × (c.file_offset + 4096 ≤ 3 * 4096))
      (execute
        (3 * 4096)
        4096
        sequential_write
        four_rounds
        (start_with (no_statistics hundredths))).1
execute_in_file_example =
    execute_in_file 4096 3 sequential_write four_rounds (start_with (no_statistics hundredths))
      (omega arith) (omega arith) (omega arith)
      (omega arith, (omega arith, (omega arith, (omega arith, tt)))) refl

-- The third write fails.
abbrev fails_at_two : ℕ → Bool
fails_at_two k = ltb k 2

create_test_file_lem_example :
    (created : Bool) × (chunks : List ℕ) × (create_test_file true fails_at_two (5 * mb)
      ≡ some (created, chunks))
    × (created ≡ true → sum chunks ≡ 5 * mb)
    × (sum chunks ≤ 5 * mb)
    × All (λ c. (0 < c) × (c ≤ mb)) chunks
    × (true ≡ true → ((i : ℕ) → fails_at_two i ≡ true) → created ≡ true)
create_test_file_lem_example = create_test_file_lem true fails_at_two (5 * mb)

abbrev two_threads : List (IoStatistics hundredths)
two_threads =
    record (no_statistics hundredths) {
      bytes_read = 4096;
      read_operations = 1;
      min_latency = some 3;
      max_latency = 3;
      total_time = 200;
    }
    ∷ record (no_statistics hundredths) {
      bytes_read = 8192;
      read_operations = 2;
      min_latency = some 1;
      max_latency = 7;
      total_time = 100;
    }
    ∷ []

calculate_aggregate_metrics_lem_example :
    Sums hundredths
      (calculate_aggregate_metrics hundredths two_threads)
      two_threads
      (no_metrics hundredths)
    × All (Within hundredths (calculate_aggregate_metrics hundredths two_threads)) two_threads
calculate_aggregate_metrics_lem_example =
    calculate_aggregate_metrics_lem hundredths hundredths-IsOrdered two_threads

-- A negative size passes the test of the option.
abbrev negative_size : List Opt
negative_size = record { opt = b's'; optarg = "-1" } ∷ []

negative_size_lem :
    read_options default_config negative_size
    ≡ run (record default_config { file_size_mb = 2 ^ 64 - 1 })
unfolding getopt_loop stoi read_options
negative_size_lem = refl

-- Two threads: the first arrives at the barrier, the second cannot open its file.
abbrev one_gone : System
one_gone = record {
  arrived = 1;
  stop_flag = false;
  caller = sleeping;
  worker = put 0 waiting (put 1 gone (put 0 ready (put 1 opening (put 0 opening initial.worker))));
}

one_gone_reached : Steps 2 initial one_gone
unfolding ℕ_discrete
one_gone_reached =
    next
      (next
        (next
          (next (next (next done (launch 0 (omega arith) refl)) (launch 1 (omega arith) refl))
            (all_launched refl))
          (open_file 0 (omega arith) refl))
        (open_fails 1 (omega arith) refl))
      (arrive 0 (omega arith) refl refl)

barrier_hangs_example : (one_gone.worker 0 ≡ waiting) × Waits one_gone.caller
unfolding ℕ_discrete
barrier_hangs_example =
    barrier_hangs 1 0 one_gone_reached (omega arith) (omega arith) (inl refl) refl refl done

-- One thread, which has passed the barrier.
abbrev one_runs : System
one_runs = record {
  arrived = 1;
  stop_flag = false;
  caller = sleeping;
  worker = put 0 executing (put 0 waiting (put 0 ready (put 0 opening initial.worker)));
}

one_runs_reached : Steps 1 initial one_runs
unfolding ℕ_discrete
one_runs_reached =
    next
      (next
        (next (next (next done (launch 0 (omega arith) refl)) (all_launched refl))
          (open_file 0 (omega arith) refl))
        (arrive 0 (omega arith) refl refl))
      (pass 0 (omega arith) refl refl refl)

start_together_example : pending (one_runs.worker 0) ≡ 0
unfolding ℕ_discrete
start_together_example = start_together 0 0 one_runs_reached (omega arith) (omega arith) refl

abbrev size_options : List Opt
size_options = record { opt = b's'; optarg = "2" } ∷ []

planned_in_file_example : All (StaysInFile (2 * mb)) (plan default_config.test_type)
unfolding getopt_loop stoi read_options
planned_in_file_example =
    planned_in_file size_options (record default_config { file_size_mb = 2 }) refl
