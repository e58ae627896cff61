-- ===== src/Scheduler/CommandLine.antt =====
-- src/scheduler_analyzer_cpp.cpp: the options of `main`.
pub mod Valid
use context_switching.Prelude.{
  ℕ, Bool, true, false, List, [], ◌∷◌, ◌||◌, ◌==◌, if◌then◌else◌, ◌≤◌, ◌<◌,
}
use context_switching.Prelude.Int.{ℤ, pos, ltb_ℤ, ◌≤ℤ◌}
use context_switching.Prelude.CommandLine.{
  Opt, Outcome, run, exit, uncaught, stoi, reading, getopt_loop,
}

pub record Config : Type 0 where
  pub duration : ℤ
  pub num_threads : ℤ
  pub use_nice_values : Bool
  pub verbose : Bool

abbrev pub default_config : Config
default_config = record {
  duration = pos 10;
  num_threads = pos 4;
  use_nice_values = false;
  verbose = false;
}

-- `x <= 0`
abbrev pub not_positive : ℤ → Bool
not_positive x = ltb_ℤ x (pos 1)

set_duration : Config → ℤ → Outcome Config
set_duration c n = if not_positive n then exit 1 else run (record c { duration = n })

set_num_threads : Config → ℤ → Outcome Config
set_num_threads c n =
    if not_positive n || ltb_ℤ (pos 64) n then exit 1 else run (record c { num_threads = n })

-- What one option does to the configuration.
pub read_option : Config → Opt → Outcome Config
unfolding set_duration set_num_threads
read_option c o =
    if o.opt == b'd'
    then reading (stoi o.optarg) (set_duration c)
    else if o.opt == b't'
    then reading (stoi o.optarg) (set_num_threads c)
    else if o.opt == b'n'
    then run (record c { use_nice_values = true })
    else if o.opt == b'v'
    then run (record c { verbose = true })
    else if o.opt == b'h'
    then exit 0
    else exit 1

unfoldable pub read_options : Config → List Opt → Outcome Config
unfolding read_option
read_options = getopt_loop read_option
