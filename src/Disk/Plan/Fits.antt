-- ===== src/Disk/Plan/Fits.antt =====
-- src/disk_io_analyzer_cpp.cpp: the block sizes of the tests against the sizes of the files.
use native.Mathlib.Decide.{dec_lt}
use native.Mathlib.Nat.{mul-div_cancel}
use context_switching.Prelude.{
  ℕ, ◌+◌, ◌*◌, ◌/◌, ◌%◌, ◌^◌, ◌≤◌, ◌<◌, ◌≡◌, ◌≢◌, inl, inr, List, [], ◌∷◌, ◌++◌, All, All-map,
  All-append, ap, ◌∙◌, zero, suc, subst, sym, refl, arith,
}
use context_switching.Prelude.CommandLine.{Opt, run}
use context_switching.Prelude.Double.{Double}
use context_switching.Disk.Statistics.{no_statistics}
use context_switching.Disk.Executor.{Round, execute, start_with}
use context_switching.Disk.Executor.Offsets.{execute_in_file}
use context_switching.Disk.Files.{mb}
use context_switching.Disk.CommandLine.{
  Config, TestType, default_config, read_options, file_size, pattern_analysis, block_size_analysis,
  sync_overhead, io_mode_comparison, queue_depth_analysis, all,
}
use context_switching.Disk.CommandLine.Valid.{disk_main-IsValid, disk_main-FromInt, FromInt}
use context_switching.Disk.Plan.{
  Test, plan, block_sizes, run_block_sizes, run_pattern_analysis, run_sync_overhead_analysis,
  run_io_mode_comparison,
}

-- A file of whole blocks, at least one.
abbrev Fits : ℕ → ℕ → Type 0
Fits size block_size =
    (0 < block_size) × (0 < size / block_size) × (size ≡ size / block_size * block_size)

-- The block size of a test, so often, is a megabyte.
abbrev Divides : Test → Type 0
Divides test = (q : ℕ) × (q * test.block_size ≡ mb)

block_sizes-Divide : All (λ size. (q : ℕ) × (q * size ≡ mb)) block_sizes
block_sizes-Divide = (
  (256, refl),
  (
    (128, refl),
    (
      (64, refl),
      ((32, refl), ((16, refl), ((8, refl), ((4, refl), ((2, refl), ((1, refl), tt)))))),
    ),
  ),
)

run_block_sizes-Divide :
    (sizes : List ℕ)
    → All (λ size. (q : ℕ) × (q * size ≡ mb)) sizes
    → All Divides (run_block_sizes sizes)
run_block_sizes-Divide [] h = tt
run_block_sizes-Divide (size ∷ sizes) h = (h.0, (h.0, run_block_sizes-Divide sizes h.1))

patterns-Divide : All Divides run_pattern_analysis
patterns-Divide = ((16, refl), ((16, refl), ((16, refl), ((16, refl), ((16, refl), tt)))))

sync-Divide : All Divides run_sync_overhead_analysis
sync-Divide = ((16, refl), ((16, refl), tt))

modes-Divide : All Divides run_io_mode_comparison
modes-Divide = ((16, refl), ((16, refl), ((16, refl), tt)))

plan-Divides : (t : TestType) → All Divides (plan t)
unfolding plan
plan-Divides pattern_analysis = patterns-Divide
plan-Divides block_size_analysis = run_block_sizes-Divide block_sizes block_sizes-Divide
plan-Divides sync_overhead = sync-Divide
plan-Divides io_mode_comparison = modes-Divide
plan-Divides queue_depth_analysis = tt
plan-Divides all =
    All-append Divides run_pattern_analysis
      (run_block_sizes block_sizes ++ (run_sync_overhead_analysis ++ run_io_mode_comparison))
      patterns-Divide
      (All-append Divides (run_block_sizes block_sizes)
        (run_sync_overhead_analysis ++ run_io_mode_comparison)
        (run_block_sizes-Divide block_sizes block_sizes-Divide)
        (All-append Divides run_sync_overhead_analysis run_io_mode_comparison sync-Divide
          modes-Divide))

divisor-Fits :
    (size block_size q : ℕ) → q * block_size ≡ mb → size % mb ≡ 0 → size ≢ 0 → Fits size block_size
divisor-Fits size zero q e d n = absurd (omega (arith, e))
divisor-Fits size (suc b) q e d n =
    let m = size / mb in
    let whole : size ≡ m * mb = omega (arith, d) in
    let blocks : size ≡ m * q * suc b = whole ∙ ap (λ k. m * k) (sym e) ∙ omega arith in
    let quotient : size / suc b ≡ m * q =
      ap (λ k. k / suc b) blocks ∙ mul-div_cancel (m * q) (omega arith) in
    let same : size ≡ size / suc b * suc b = blocks ∙ ap (λ k. k * suc b) (sym quotient) in
    let positive : 0 < size / suc b = elim (dec_lt 0 (size / suc b)) [
      | yes h ↦ h
      | no h ↦
          let empty : size / suc b ≡ 0 = omega (arith, h) in
          let none_left : size / suc b * suc b ≡ 0 = ap (λ k. k * suc b) empty ∙ omega arith in
          absurd (n (same ∙ none_left))
    ] in
    (omega arith, positive, same)

-- The files of every configuration that `main` lets through hold whole megabytes, at least one.
some_bytes :
    (c : Config)
    → c.file_size_mb ≢ 0
    → FromInt c
    → (file_size c ≢ 0) × (file_size c < 2 ^ 64) × (file_size c % mb ≡ 0)
some_bytes c n (inl h) = (omega (arith, n, h), omega arith, omega arith)
some_bytes c n (inr h) = (omega (arith, n, h), omega arith, omega arith)

-- Each call of a run stays within a file of this size, at a multiple of the block size.
abbrev pub StaysInFile : ℕ → Test → Type 1
StaysInFile size test =
    (F : Double) (rs : List (Round F))
    → All (λ r. r.draw < size / test.block_size) rs
    → All (λ k. (k.file_offset % test.block_size ≡ 0) × (k.file_offset + test.block_size ≤ size))
        (execute size test.block_size test.pattern rs (start_with (no_statistics F))).1

Fits-StaysInFile :
    (size : ℕ) (test : Test) → size < 2 ^ 64 → Fits size test.block_size → StaysInFile size test
Fits-StaysInFile size test h (p, q, e) F rs d =
    subst
      (λ n.
        All (λ k. (k.file_offset % test.block_size ≡ 0) × (k.file_offset + test.block_size ≤ n))
          (execute n test.block_size test.pattern rs (start_with (no_statistics F))).1)
      (sym e)
      (execute_in_file test.block_size (size / test.block_size) test.pattern rs
        (start_with (no_statistics F)) p q (omega (arith, h, e)) d refl)

-- Whatever the options that `main` lets through, in each run of `run_io_test` that the chosen tests make,
-- where each draw is below the number of blocks of the file, every `pread` and `pwrite` starts at a
-- multiple of the block size and ends within the file.
pub planned_in_file :
    (os : List Opt) (c : Config)
    → read_options default_config os ≡ run c
    → All (StaysInFile (file_size c)) (plan c.test_type)
planned_in_file os c e =
    let valid = disk_main-IsValid os c e in
    let (n, h, d) = some_bytes c valid.some_size (disk_main-FromInt os c e) in
    All-map
      (λ test k.
        let (q, f) = k in
        Fits-StaysInFile (file_size c) test h (divisor-Fits (file_size c) test.block_size q f d n))
      (plan c.test_type) (plan-Divides c.test_type)
