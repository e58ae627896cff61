-- ===== src/Scheduler/Tests.antt =====
-- Concrete runs of the scheduler analyzer.
use context_switching.Prelude.{
  ℕ, ◌*◌, ◌≤◌, ◌<◌, ◌≡◌, refl, true, false, List, [], ◌∷◌, some, arith, map,
}
use context_switching.Prelude.Int.{pos}
use context_switching.Prelude.Double.{hundredths}
use context_switching.Prelude.Fraction.{exact}
use context_switching.Prelude.CommandLine.{Opt, run, exit, stoi, getopt_loop}
use context_switching.Scheduler.Stats.{ThreadStats, initial_stats}
use context_switching.Scheduler.Fairness.{calculate_jains_index}
use context_switching.Scheduler.Fairness.Jain.{jains_index_bounds}
use context_switching.Scheduler.Analyzer.{Rusage, Job, run_analysis, total_operations}
use context_switching.Scheduler.Analyzer.Totals.{total_operations_lem}
use context_switching.Scheduler.CommandLine.{Config, default_config, read_options}

abbrev fresh : ThreadStats hundredths
fresh = initial_stats hundredths 3

jains_index_bounds_example :
    let j = calculate_jains_index exact (map exact.of_nat (4 ∷ 0 ∷ 8 ∷ [])) in
    (0 < j.den) × (j.num ≤ j.den) × (j.den ≤ 3 * j.num)
jains_index_bounds_example = jains_index_bounds (4 ∷ 0 ∷ 8 ∷ []) (omega arith)

-- 12 * 12 / (3 * (16 + 64))
jain_of_three :
    calculate_jains_index exact (map exact.of_nat (4 ∷ 0 ∷ 8 ∷ []))
    ≡ record { num = 144; den = 240 }
unfolding calculate_jains_index
jain_of_three = refl

abbrev usage : Rusage
usage = record {
  utime_sec = 1;
  utime_usec = 0;
  stime_sec = 2;
  stime_usec = 0;
  nvcsw = 30;
  nivcsw = 12;
}

abbrev job : ℕ → Job
job i = record { rounds = 5; choices = true ∷ false ∷ []; usage = some usage }

-- Threads 0 to 3 get one workload each.
total_operations_lem_example :
    total_operations hundredths (run_analysis hundredths false (λ i. i) (λ i. pos 0) job 100 4).1
    ≡ 92026
total_operations_lem_example = total_operations_lem hundredths false (λ i. i) (λ i. pos 0) job 100 4

abbrev options : List Opt
options =
    record { opt = b'd'; optarg = "30" }
    ∷ record { opt = b't'; optarg = " 8x" }
    ∷ record { opt = b'v'; optarg = "" }
    ∷ []

abbrev chosen : Config
chosen = record { duration = pos 30; num_threads = pos 8; use_nice_values = false; verbose = true }

options_read : read_options default_config options ≡ run chosen
unfolding read_options getopt_loop stoi
options_read = refl

-- 65 threads are refused.
too_many_threads : read_options default_config (record { opt = b't'; optarg = "65" } ∷ []) ≡ exit 1
unfolding read_options getopt_loop stoi
too_many_threads = refl
