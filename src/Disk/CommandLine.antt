-- ===== src/Disk/CommandLine.antt =====
-- src/disk_io_analyzer_cpp.cpp: the options of `main`.
pub mod Valid
use Prim.Native.String.{String}
use context_switching.Prelude.{ℕ, ◌*◌, ◌^◌, ◌-◌, Bool, true, false, List, ◌||◌, ◌==◌, if◌then◌else◌}
use context_switching.Prelude.Int.{ℤ, pos, negsuc, ltb_ℤ}
use context_switching.Prelude.Words.{u64}
use context_switching.Prelude.CommandLine.{
  Opt, Outcome, run, exit, uncaught, stoi, reading, same_text, getopt_loop, to_size,
}
use context_switching.Disk.Files.{mb}

pub data TestType : Type 0 where
  pattern_analysis block_size_analysis sync_overhead io_mode_comparison queue_depth_analysis all :
      TestType

pub record Config : Type 0 where
  pub filename : String
  pub file_size_mb : ℕ
  pub test_type : TestType
  pub num_threads : ℤ
  pub duration : ℤ
  pub verbose : Bool

abbrev pub default_config : Config
default_config = record {
  filename = "./diskio_test";
  file_size_mb = 100;
  test_type = all;
  num_threads = pos 4;
  duration = pos 10;
  verbose = false;
}

-- The value is unsigned when it is compared with 0.
set_file_size : Config → ℤ → Outcome Config
set_file_size c n = if to_size n == 0 then exit 1 else run (record c { file_size_mb = to_size n })

set_test_type : Config → String → Outcome Config
set_test_type c arg =
    if same_text arg "pattern"
    then run (record c { test_type = pattern_analysis })
    else if same_text arg "block"
    then run (record c { test_type = block_size_analysis })
    else if same_text arg "sync"
    then run (record c { test_type = sync_overhead })
    else if same_text arg "modes"
    then run (record c { test_type = io_mode_comparison })
    else if same_text arg "all"
    then run (record c { test_type = all })
    else exit 1

set_num_threads : Config → ℤ → Outcome Config
set_num_threads c n =
    if ltb_ℤ n (pos 1) || ltb_ℤ (pos 64) n then exit 1 else run (record c { num_threads = n })

set_duration : Config → ℤ → Outcome Config
set_duration c n = if ltb_ℤ n (pos 1) then exit 1 else run (record c { duration = n })

pub read_option : Config → Opt → Outcome Config
unfolding set_file_size set_test_type set_num_threads set_duration
read_option c o =
    if o.opt == b'f'
    then run (record c { filename = o.optarg })
    else if o.opt == b's'
    then reading (stoi o.optarg) (set_file_size c)
    else if o.opt == b't'
    then set_test_type c o.optarg
    else if o.opt == b'T'
    then reading (stoi o.optarg) (set_num_threads c)
    else if o.opt == b'd'
    then reading (stoi o.optarg) (set_duration c)
    else if o.opt == b'v'
    then run (record c { verbose = true })
    else if o.opt == b'h'
    then exit 0
    else exit 1

unfoldable pub read_options : Config → List Opt → Outcome Config
unfolding read_option
read_options = getopt_loop read_option

-- The size of each file.
abbrev pub file_size : Config → ℕ
file_size c = u64 (c.file_size_mb * mb)
