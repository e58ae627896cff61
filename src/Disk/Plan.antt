-- ===== src/Disk/Plan.antt =====
-- src/disk_io_analyzer_cpp.cpp: the calls of `run_io_test` that the tests make.
pub mod Fits
use context_switching.Prelude.{ℕ, ◌*◌, List, [], ◌∷◌, ◌++◌}
use context_switching.Disk.Statistics.{
  IoPattern, sequential_read, sequential_write, random_read, random_write, mixed, IoMode, buffered,
  direct, synchronous,
}
use context_switching.Disk.Files.{kb, mb}
use context_switching.Disk.CommandLine.{
  TestType, pattern_analysis, block_size_analysis, sync_overhead, io_mode_comparison,
  queue_depth_analysis, all,
}

-- `run_io_test<pattern>(mode, block_size)`
pub record Test : Type 0 where
  pub pattern : IoPattern
  pub mode : IoMode
  pub block_size : ℕ

abbrev pub io_test : IoPattern → IoMode → ℕ → Test
io_test pattern mode block_size = record { pattern = pattern; mode = mode; block_size = block_size }

abbrev run_pattern_analysis : List Test
run_pattern_analysis =
    io_test sequential_read buffered (64 * kb)
    ∷ io_test sequential_write buffered (64 * kb)
    ∷ io_test random_read buffered (64 * kb)
    ∷ io_test random_write buffered (64 * kb)
    ∷ io_test mixed buffered (64 * kb)
    ∷ []

abbrev pub block_sizes : List ℕ
block_sizes =
    4 * kb ∷ 8 * kb ∷ 16 * kb ∷ 32 * kb ∷ 64 * kb ∷ 128 * kb ∷ 256 * kb ∷ 512 * kb ∷ 1 * mb ∷ []

abbrev run_block_sizes : List ℕ → List Test
run_block_sizes [] = []
run_block_sizes (size ∷ sizes) =
    io_test sequential_read buffered size
    ∷ io_test sequential_write buffered size
    ∷ run_block_sizes sizes

abbrev run_sync_overhead_analysis : List Test
run_sync_overhead_analysis =
    io_test sequential_write buffered (64 * kb)
    ∷ io_test sequential_write synchronous (64 * kb)
    ∷ []

abbrev run_io_mode_comparison : List Test
run_io_mode_comparison =
    io_test mixed buffered (64 * kb)
    ∷ io_test mixed direct (64 * kb)
    ∷ io_test mixed synchronous (64 * kb)
    ∷ []

pub plan : TestType → List Test
plan pattern_analysis = run_pattern_analysis
plan block_size_analysis = run_block_sizes block_sizes
plan sync_overhead = run_sync_overhead_analysis
plan io_mode_comparison = run_io_mode_comparison
plan queue_depth_analysis = []
plan all =
    run_pattern_analysis
    ++ (run_block_sizes block_sizes ++ (run_sync_overhead_analysis ++ run_io_mode_comparison))
