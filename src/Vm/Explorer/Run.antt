-- ===== src/Vm/Explorer/Run.antt =====
-- src/vm_explorer.cpp: `test_copy_on_write`, `VMExplorer::run` and `main`.
pub mod Parts
pub mod Complete
use context_switching.Prelude.{
  ℕ, suc, ◌*◌, ◌/◌, true, false, List, [], ◌∷◌, ◌++◌, Option, none, some, if◌then◌else◌, ◌>>=◌,
}
use context_switching.Prelude.CommandLine.{Opt, Outcome}
use context_switching.Prelude.CommandLine
use context_switching.Vm.Block.{State}
use context_switching.Vm.Block
use context_switching.Vm.Access.{Memory, page_size, strided}
use context_switching.Vm.CommandLine.{
  TestType, tlb_miss, page_fault, huge_pages, mmap_vs_malloc, copy_on_write, all, Config,
  default_config, read_options,
}
use context_switching.Vm.Explorer.{
  Machine, Result, printed, failed, with_block, test_tlb_misses, test_page_faults, test_huge_pages,
  test_mmap_vs_malloc, half_size,
}

-- The first child reads a byte of each page of its copy, the second writes half of its pages.
abbrev pub child_reads : ℕ → Memory → Option Memory
child_reads size = strided (suc size) size page_size (λ v. v) 0

abbrev pub child_writes : ℕ → Memory → Option Memory
child_writes size = strided (suc (size / 2)) (size / 2) page_size (λ v. 205) 0

-- Both forks succeed. The children work on copies, so that the parent's memory stays as `memset`
-- filled it, and the parent prints how many pages the second one has written.
pub copy_on_write_body : Machine → State → Option (State × Result)
copy_on_write_body e s = do
  read ← child_reads half_size (λ p. 171)
  if e.pipe_fails
      then some (s, failed)
      else (child_writes half_size (λ p. 171) >>= λ _.
          some (s, printed (half_size / 2 / page_size ∷ [])))

pub test_copy_on_write : Machine → State → Option (State × List Result)
unfolding with_block copy_on_write_body
test_copy_on_write e s = do
  (t, r) ← with_block e 0 half_size true false (copy_on_write_body e) s
  some (t, r ∷ [])

abbrev and_then :
    (State → Option (State × List Result))
    → (State → Option (State × List Result))
    → State
    → Option (State × List Result)
and_then first second s = do (t, rs) ← first s; (u, more) ← second t; some (u, rs ++ more)

-- What each of the tests prints, and the state in which they leave the blocks.
pub run_tests : TestType → ℕ → Machine → Memory → State → Option (State × List Result)
unfolding test_tlb_misses test_page_faults test_huge_pages test_mmap_vs_malloc test_copy_on_write
run_tests tlb_miss memory_size e stale = test_tlb_misses e memory_size
run_tests page_fault memory_size e stale = test_page_faults e memory_size
run_tests huge_pages memory_size e stale = test_huge_pages e
run_tests mmap_vs_malloc memory_size e stale = test_mmap_vs_malloc e stale
run_tests copy_on_write memory_size e stale = test_copy_on_write e
run_tests all memory_size e stale = and_then (test_tlb_misses e memory_size) (
    and_then (test_page_faults e memory_size) (
      and_then (test_huge_pages e) (and_then (test_mmap_vs_malloc e stale) (test_copy_on_write e))))

-- The exit status of `main`, and what it leaves: it catches every exception.
pub main_from : Outcome Config → Machine → Memory → State → Option (State × List Result × ℕ)
unfolding run_tests
main_from (CommandLine.run c) e stale s = do
  (t, rs) ← run_tests c.test_type c.memory_size e stale s
  some (t, rs, 0)
main_from (CommandLine.exit n) e stale s = some (s, [], n)
main_from (CommandLine.uncaught x) e stale s = some (s, [], 1)

unfoldable pub main : List Opt → Machine → Memory → Option (State × List Result × ℕ)
unfolding main_from
main options e stale = main_from (read_options default_config options) e stale Block.initial
