-- ===== src/Vm/Explorer/Run/Complete.antt =====
-- src/vm_explorer.cpp: `VMExplorer::run` and `main` run to their end and give all blocks back.
use mathlib.Core.List.{Perm}
use context_switching.Prelude.{
  ℕ, suc, ◌≡◌, refl, ap, true, false, List, [], ◌∷◌, none, some, length,
}
use context_switching.Prelude.Occurrences.{iota}
use context_switching.Prelude.CommandLine.{Opt, Outcome}
use context_switching.Prelude.CommandLine
use context_switching.Vm.Block.{State}
use context_switching.Vm.Block
use context_switching.Vm.Access.{Memory}
use context_switching.Vm.Explorer.Run.Parts.{
  Prints, for_each-Prints, and_then-Prints, tlb_row-Keeps, fault_test-Keeps, huge_test-Keeps,
  compare_row-Keeps, fault_comparison-Keeps, copy_on_write_lem, copy_on_write_result,
}
use context_switching.Vm.CommandLine.{
  TestType, tlb_miss, page_fault, huge_pages, mmap_vs_malloc, copy_on_write, all, Config,
  default_config, read_options,
}
use context_switching.Vm.Explorer.{
  Machine, Result, test_tlb_misses, test_page_faults, test_huge_pages, test_mmap_vs_malloc,
  half_size, tlb_row, fault_test, huge_test, compare_row, tlb_sizes, compared_sizes,
}
use context_switching.Vm.Explorer.Tidy.{IsSystem, with_block_lem, outcome}
use context_switching.Vm.Explorer.Run.{
  test_copy_on_write, copy_on_write_body, run_tests, and_then, main_from, main,
}

-- How many results the tests print.
abbrev pub result_count : TestType → ℕ
result_count tlb_miss = 5
result_count page_fault = 3
result_count huge_pages = 2
result_count mmap_vs_malloc = 4
result_count copy_on_write = 1
result_count all = 15

-- What the configuration of a command line prints.
abbrev pub printed_by : Outcome Config → ℕ
printed_by (CommandLine.run c) = result_count c.test_type
printed_by (CommandLine.exit n) = 0
printed_by (CommandLine.uncaught x) = 0

module _ (e : Machine) (system : IsSystem e) (shuffles : (n : ℕ) → Perm (e.shuffled n) (iota 0 n))
    (stale : Memory) (s : State) (a : s.variable 0 ≡ none) (b : s.variable 1 ≡ none) where
  test_tlb_misses-Prints : (memory_size : ℕ) → Prints 5 (test_tlb_misses e memory_size) s
  unfolding test_tlb_misses
  test_tlb_misses-Prints memory_size =
      for_each-Prints (tlb_row e) (tlb_sizes memory_size) s (tlb_row-Keeps e system shuffles s a)

  test_page_faults-Prints : (memory_size : ℕ) → Prints 3 (test_page_faults e memory_size) s
  unfolding test_page_faults
  test_page_faults-Prints memory_size =
      for_each-Prints (fault_test e memory_size) (1 ∷ 2 ∷ 3 ∷ []) s
        (fault_test-Keeps e system shuffles s a memory_size)

  test_huge_pages-Prints : Prints 2 (test_huge_pages e) s
  unfolding test_huge_pages
  test_huge_pages-Prints =
      for_each-Prints (huge_test e) (0 ∷ 1 ∷ []) s (huge_test-Keeps e system shuffles s a)

  test_mmap_vs_malloc-Prints : Prints 4 (test_mmap_vs_malloc e stale) s
  unfolding test_mmap_vs_malloc
  test_mmap_vs_malloc-Prints =
      let (rs, f, l) =
        for_each-Prints (compare_row e stale) compared_sizes s
          (compare_row-Keeps e system shuffles stale s a b) in
      let (r, g) = fault_comparison-Keeps e system shuffles stale s a b half_size in
      (r ∷ rs, rw (f, g) refl, ap suc l)

  test_copy_on_write-Prints : Prints 1 (test_copy_on_write e) s
  unfolding test_copy_on_write
  test_copy_on_write-Prints = (
    outcome (Block.allocate (e.answers s half_size) true false)
          (λ _. copy_on_write_result e.pipe_fails)
        ∷ [],
    rw
        (with_block_lem e system 0 half_size true false (copy_on_write_body e)
          (λ _. copy_on_write_result e.pipe_fails) s a
          (λ p h. copy_on_write_lem e system shuffles _))
        refl,
    refl,
  )

  -- Whatever test is chosen and whatever the memory size, where no block is alive in the variables of the
  -- tests: if the system gives out no address in use and no block of 2^47 bytes or more, and shuffles
  -- are shuffles, the tests end, access nothing out of bounds, print a result for each size or case, an
  -- error included, and leave the blocks and the system's regions exactly as they were.
  pub run_tests-Prints :
      (t : TestType) (memory_size : ℕ) → Prints (result_count t) (run_tests t memory_size e stale) s
  unfolding run_tests
  run_tests-Prints tlb_miss memory_size = test_tlb_misses-Prints memory_size
  run_tests-Prints page_fault memory_size = test_page_faults-Prints memory_size
  run_tests-Prints huge_pages memory_size = test_huge_pages-Prints
  run_tests-Prints mmap_vs_malloc memory_size = test_mmap_vs_malloc-Prints
  run_tests-Prints copy_on_write memory_size = test_copy_on_write-Prints
  run_tests-Prints all memory_size =
      let forks = test_copy_on_write e in
      let compared = and_then (test_mmap_vs_malloc e stale) forks in
      let paged = and_then (test_huge_pages e) compared in
      let last =
        and_then-Prints 4 1 (test_mmap_vs_malloc e stale) forks s test_mmap_vs_malloc-Prints
          test_copy_on_write-Prints in
      let third = and_then-Prints 2 5 (test_huge_pages e) compared s test_huge_pages-Prints last in
      let second =
        and_then-Prints 3 7 (test_page_faults e memory_size) paged s
          (test_page_faults-Prints memory_size) third in
      and_then-Prints 5 10 (test_tlb_misses e memory_size)
        (and_then (test_page_faults e memory_size) paged) s (test_tlb_misses-Prints memory_size)
        second

main_from_lem :
    (c : Outcome Config) (e : Machine)
    → IsSystem e
    → ((n : ℕ) → Perm (e.shuffled n) (iota 0 n))
    → (stale : Memory)
    → (rs : List Result) × (status : ℕ) × (main_from c e stale Block.initial
        ≡ some (Block.initial, rs, status))
      × (length rs ≡ printed_by c)
unfolding main_from
main_from_lem (CommandLine.run c) e system shuffles stale =
    let (rs, f, l) =
      run_tests-Prints e system shuffles stale Block.initial refl refl c.test_type c.memory_size in
    (rs, 0, rw f refl, l)
main_from_lem (CommandLine.exit n) e system shuffles stale = ([], n, refl, refl)
main_from_lem (CommandLine.uncaught x) e system shuffles stale = ([], 1, refl, refl)

-- Whatever the options, under the same conditions, `main` ends, prints the results of the chosen tests,
-- or none after a wrong option, and leaves no block and no region behind.
pub main_gives_back :
    (options : List Opt) (e : Machine)
    → IsSystem e
    → ((n : ℕ) → Perm (e.shuffled n) (iota 0 n))
    → (stale : Memory)
    → (rs : List Result) × (status : ℕ) × (main options e stale ≡ some (Block.initial, rs, status))
      × (length rs ≡ printed_by (read_options default_config options))
unfolding main
main_gives_back options e system shuffles stale =
    main_from_lem (read_options default_config options) e system shuffles stale
