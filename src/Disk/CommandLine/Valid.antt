-- ===== src/Disk/CommandLine/Valid.antt =====
-- src/disk_io_analyzer_cpp.cpp: the configurations that `main` lets through.
use context_switching.Prelude.{◌+◌, ◌^◌, ◌≤◌, ◌<◌, ◌⊎◌, inl, refl, ◌≡◌, ◌≢◌, List, arith}
use context_switching.Prelude.Int.{ℤ, pos, ◌≤ℤ◌}
use native.Mathlib.Decide.{ℕ_discrete}
use context_switching.Prelude.CommandLine.{
  Opt, run, Parsed, value, throws, reading, stoi, IsInt, stoi-IsInt, getopt_loop-keeps,
}
use context_switching.Disk.CommandLine.{
  queue_depth_analysis, Config, default_config, read_option, read_options, set_file_size,
}

pub record IsValid (c : Config) : Type 0 where
  pub some_size : c.file_size_mb ≢ 0
  pub positive_threads : pos 1 ≤ℤ c.num_threads
  pub bounded_threads : c.num_threads ≤ℤ pos 64
  pub positive_duration : pos 1 ≤ℤ c.duration
  pub another_test : c.test_type ≢ queue_depth_analysis

read_option-IsValid : (c d : Config) (o : Opt) → IsValid c → read_option c o ≡ run d → IsValid d
unfolding read_option set_file_size
read_option-IsValid c d o v e = ground arith

-- The size in megabytes is an `int`, converted to `size_t`.
abbrev pub FromInt : Config → Type 0
FromInt c =
    (c.file_size_mb < 2 ^ 31) ⊎ ((2 ^ 64 ≤ c.file_size_mb + 2 ^ 31) × (c.file_size_mb < 2 ^ 64))

set_file_size-FromInt :
    (c d : Config) (r : Parsed ℤ)
    → ((n : ℤ) → r ≡ value n → IsInt n)
    → reading r (set_file_size c) ≡ run d
    → FromInt d
unfolding set_file_size
set_file_size-FromInt c d (value n) h e = ground (arith, h n refl)
set_file_size-FromInt c d (throws x) h e = cc

read_option-FromInt : (c d : Config) (o : Opt) → FromInt c → read_option c o ≡ run d → FromInt d
unfolding read_option
read_option-FromInt c d o v e = elim (ℕ_discrete o.opt b's') [
  | yes s ↦ set_file_size-FromInt c d (stoi o.optarg) (stoi-IsInt o.optarg) (ground (arith, e, s))
  | no s ↦
      let same : d.file_size_mb ≡ c.file_size_mb = ground (arith, e, s) in ground (arith, same, v)
]

pub disk_main-FromInt :
    (os : List Opt) (c : Config) → read_options default_config os ≡ run c → FromInt c
unfolding read_options
disk_main-FromInt os c e =
    getopt_loop-keeps FromInt read_option read_option-FromInt os default_config c
      (inl (omega arith)) e

-- Whatever the options, the analyzer runs only with 1 to 64 threads, a duration of at least a second and
-- a size other than 0, and never the queue depth analysis.
pub disk_main-IsValid :
    (os : List Opt) (c : Config) → read_options default_config os ≡ run c → IsValid c
unfolding read_options
disk_main-IsValid os c e =
    getopt_loop-keeps IsValid read_option read_option-IsValid os default_config c
      (record {
        some_size = omega arith;
        positive_threads = omega arith;
        bounded_threads = omega arith;
        positive_duration = omega arith;
        another_test = λ e. cc;
      })
      e
