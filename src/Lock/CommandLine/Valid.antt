-- ===== src/Lock/CommandLine/Valid.antt =====
-- src/lock_visualizer_cpp.cpp: the configurations that `main` lets through.
use context_switching.Prelude.{◌≡◌, List, arith}
use context_switching.Prelude.Int.{pos, ◌≤ℤ◌}
use context_switching.Prelude.CommandLine.{Opt, run, getopt_loop-keeps}
use context_switching.Lock.CommandLine.{Config, default_config, read_option, read_options}

pub record IsValid (c : Config) : Type 0 where
  pub positive_threads : pos 1 ≤ℤ c.num_threads
  pub bounded_threads : c.num_threads ≤ℤ pos 64
  pub positive_duration : pos 1 ≤ℤ c.duration

read_option-IsValid : (c d : Config) (o : Opt) → IsValid c → read_option c o ≡ run d → IsValid d
unfolding read_option
read_option-IsValid c d o v e = ground arith

-- Whatever the options, the locks are measured only with 1 to 64 threads and for a positive duration.
lock_main-IsValid :
    (os : List Opt) (c : Config) → read_options default_config os ≡ run c → IsValid c
unfolding read_options
lock_main-IsValid os c e =
    getopt_loop-keeps IsValid read_option read_option-IsValid os default_config c
      (record {
        positive_threads = omega arith;
        bounded_threads = omega arith;
        positive_duration = omega arith;
      })
      e
