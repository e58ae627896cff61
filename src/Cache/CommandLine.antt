-- ===== src/Cache/CommandLine.antt =====
-- src/cache_analyzer_cpp.cpp: the options of `main`.
pub mod Valid
use Prim.Native.String.{String}
use context_switching.Prelude.{ℕ, Bool, true, false, List, ◌||◌, ◌==◌, if◌then◌else◌}
use context_switching.Prelude.Int.{ℤ, pos, ltb_ℤ}
use context_switching.Prelude.CommandLine.{
  Opt, Outcome, run, exit, uncaught, stoi, reading, same_text, getopt_loop,
}

pub data TestType : Type 0 where
  cache_hierarchy false_sharing cache_bouncing numa_analysis prefetcher all : TestType

pub record Config : Type 0 where
  pub test_type : TestType
  pub num_threads : ℤ
  pub verbose : Bool

abbrev pub default_config : Config
default_config = record { test_type = all; num_threads = pos 4; verbose = false }

set_test_type : Config → String → Outcome Config
set_test_type c arg =
    if same_text arg "hierarchy"
    then run (record c { test_type = cache_hierarchy })
    else if same_text arg "false_sharing"
    then run (record c { test_type = false_sharing })
    else if same_text arg "bouncing"
    then run (record c { test_type = cache_bouncing })
    else if same_text arg "prefetcher"
    then run (record c { test_type = prefetcher })
    else if same_text arg "all"
    then run (record c { test_type = all })
    else exit 1

set_num_threads : Config → ℤ → Outcome Config
set_num_threads c n =
    if ltb_ℤ n (pos 1) || ltb_ℤ (pos 64) n then exit 1 else run (record c { num_threads = n })

-- What one option does to the configuration.
pub read_option : Config → Opt → Outcome Config
unfolding set_test_type set_num_threads
read_option c o =
    if o.opt == b't'
    then set_test_type c o.optarg
    else if o.opt == b'T'
    then reading (stoi o.optarg) (set_num_threads c)
    else if o.opt == b'v'
    then run (record c { verbose = true })
    else if o.opt == b'h'
    then exit 0
    else exit 1

unfoldable pub read_options : Config → List Opt → Outcome Config
unfolding read_option
read_options = getopt_loop read_option
