-- ===== src/Lock/CommandLine.antt =====
-- src/lock_visualizer_cpp.cpp: the options of `main`.
pub mod Valid
use Prim.Native.String.{String}
use context_switching.Prelude.{ℕ, Bool, true, false, List, ◌||◌, ◌==◌, if◌then◌else◌}
use context_switching.Prelude.Int.{ℤ, pos, ltb_ℤ}
use context_switching.Prelude.CommandLine.{
  Opt, Outcome, run, exit, uncaught, stoi, reading, same_text, getopt_loop,
}
use context_switching.Lock.Workload.{
  LockType, mutex, recursive_mutex, shared_mutex, spinlock, adaptive_mutex, WorkloadPattern,
  balanced, read_heavy, write_heavy, thundering_herd, random, bursty,
}

pub record Config : Type 0 where
  pub num_threads : ℤ
  pub duration : ℤ
  pub lock_type : LockType
  pub pattern : WorkloadPattern
  pub visualization : Bool

abbrev pub default_config : Config
default_config = record {
  num_threads = pos 8;
  duration = pos 10;
  lock_type = mutex;
  pattern = balanced;
  visualization = false;
}

set_num_threads : Config → ℤ → Outcome Config
set_num_threads c n =
    if ltb_ℤ n (pos 1) || ltb_ℤ (pos 64) n then exit 1 else run (record c { num_threads = n })

set_duration : Config → ℤ → Outcome Config
set_duration c n = if ltb_ℤ n (pos 1) then exit 1 else run (record c { duration = n })

set_lock_type : Config → String → Outcome Config
set_lock_type c arg =
    if same_text arg "mutex"
    then run (record c { lock_type = mutex })
    else if same_text arg "recursive"
    then run (record c { lock_type = recursive_mutex })
    else if same_text arg "shared"
    then run (record c { lock_type = shared_mutex })
    else if same_text arg "spin"
    then run (record c { lock_type = spinlock })
    else if same_text arg "adaptive"
    then run (record c { lock_type = adaptive_mutex })
    else exit 1

set_pattern : Config → String → Outcome Config
set_pattern c arg =
    if same_text arg "balanced"
    then run (record c { pattern = balanced })
    else if same_text arg "read"
    then run (record c { pattern = read_heavy })
    else if same_text arg "write"
    then run (record c { pattern = write_heavy })
    else if same_text arg "thunder"
    then run (record c { pattern = thundering_herd })
    else if same_text arg "random"
    then run (record c { pattern = random })
    else if same_text arg "bursty"
    then run (record c { pattern = bursty })
    else exit 1

-- What one option does to the configuration.
pub read_option : Config → Opt → Outcome Config
unfolding set_num_threads set_duration set_lock_type set_pattern
read_option c o =
    if o.opt == b't'
    then reading (stoi o.optarg) (set_num_threads c)
    else if o.opt == b'd'
    then reading (stoi o.optarg) (set_duration c)
    else if o.opt == b'l'
    then set_lock_type c o.optarg
    else if o.opt == b'w'
    then set_pattern c o.optarg
    else if o.opt == b'z'
    then run (record c { visualization = true })
    else if o.opt == b'h'
    then exit 0
    else exit 1

unfoldable pub read_options : Config → List Opt → Outcome Config
unfolding read_option
read_options = getopt_loop read_option
