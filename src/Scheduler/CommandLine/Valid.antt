-- ===== src/Scheduler/CommandLine/Valid.antt =====
-- src/scheduler_analyzer_cpp.cpp: the configurations that `main` lets through.
use context_switching.Prelude.{◌≡◌, List, arith}
use context_switching.Prelude.Int.{pos, ◌≤ℤ◌}
use context_switching.Prelude.CommandLine.{Opt, run, getopt_loop-keeps}
use context_switching.Scheduler.CommandLine.{Config, default_config, read_option, read_options}

pub record IsValid (c : Config) : Type 0 where
  pub positive_duration : pos 1 ≤ℤ c.duration
  pub positive_threads : pos 1 ≤ℤ c.num_threads
  pub bounded_threads : c.num_threads ≤ℤ pos 64

read_option-IsValid : (c d : Config) (o : Opt) → IsValid c → read_option c o ≡ run d → IsValid d
unfolding read_option
read_option-IsValid c d o v e = ground arith

-- Whatever the options, `main` runs the analysis only with a positive duration and with 1 to 64
-- threads.
main_runs-IsValid :
    (os : List Opt) (c : Config) → read_options default_config os ≡ run c → IsValid c
unfolding read_options
main_runs-IsValid os c e =
    getopt_loop-keeps IsValid read_option read_option-IsValid os default_config c
      (record {
        positive_duration = omega arith;
        positive_threads = omega arith;
        bounded_threads = omega arith;
      })
      e
