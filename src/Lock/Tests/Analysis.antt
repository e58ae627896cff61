-- ===== src/Lock/Tests/Analysis.antt =====
-- Concrete runs of the statistics, the analysis and the command line of the lock visualizer.
use context_switching.Prelude.{◌≡◌, refl, false, List, [], ◌∷◌}
use context_switching.Prelude.Int.{pos}
use context_switching.Prelude.Double.{hundredths}
use context_switching.Prelude.Fraction.{exact}
use context_switching.Prelude.CommandLine.{Opt, run, exit, stoi, getopt_loop, same_text}
use context_switching.Lock.Statistics.{ThreadStatistics, no_statistics, add_wait_time}
use context_switching.Lock.Workload.{adaptive_mutex, bursty}
use context_switching.Lock.Analysis.{Totals}
use context_switching.Lock.CommandLine.{Config, default_config, read_options}

abbrev waits : ThreadStatistics hundredths
waits = add_wait_time hundredths 3 (add_wait_time hundredths 9 (no_statistics hundredths))

abbrev three_of_ten : Totals exact
three_of_ten = record {
  total_acquisitions = 10;
  total_contentions = 3;
  total_reads = 0;
  total_writes = 10;
  total_wait_time = exact.of_nat 0;
  max_wait_time = exact.of_nat 0;
}

-- Nine writes and no read.
abbrev writer : ThreadStatistics hundredths
writer = record (no_statistics hundredths) { write_operations = 9 }

abbrev options : List Opt
options =
    record { opt = b't'; optarg = "+16" }
    ∷ record { opt = b'l'; optarg = "adaptive" }
    ∷ record { opt = b'w'; optarg = "bursty" }
    ∷ []

abbrev chosen : Config
chosen = record {
  num_threads = pos 16;
  duration = pos 10;
  lock_type = adaptive_mutex;
  pattern = bursty;
  visualization = false;
}

options_read : read_options default_config options ≡ run chosen
unfolding read_options getopt_loop stoi same_text
options_read = refl

unknown_lock : read_options default_config (record { opt = b'l'; optarg = "futex" } ∷ []) ≡ exit 1
unfolding read_options getopt_loop stoi same_text
unknown_lock = refl
