-- ===== src/Vm/Explorer.antt =====
-- src/vm_explorer.cpp: the tests of `VMExplorer`, which create blocks and go through their memory. What
-- the timers and `getrusage` read is left out of what is printed.
pub mod Tidy
pub mod Run
use context_switching.Prelude.{
  ℕ, suc, ◌+◌, ◌-◌, ◌*◌, ◌/◌, ◌%◌, Bool, true, false, List, [], ◌∷◌, Option, none, some, ltb, ◌==◌,
  if◌then◌else◌, ◌>>=◌,
}
use context_switching.Vm.Block.{State, Answers, construct, destroy, step, absent}
use context_switching.Vm.Access.{
  Memory, page_size, strided, bump, touch_all_pages, sequential_access, random_access,
  stride_access,
}

-- What the tests take from their surroundings: the answers of the system to a request for so many
-- bytes in a state, and the shuffles of so many numbers.
pub record Machine : Type 0 where
  pub answers : State → ℕ → Answers
  pub shuffled : ℕ → List ℕ
  pub pipe_fails : Bool

-- What the body of a `try` block leads to: what it prints, or an exception.
pub data Result : Type 0 where
  printed : List ℕ → Result
  failed : Result

abbrev finish : ℕ → State → Result → Option (State × Result)
finish x s r = do t ← step s (destroy x); some (t, r)

-- The scope of `MemoryBlock x(size, use_mmap, use_huge_pages)`: its rest is left by an exception of
-- the constructor, and at its end, also by an exception, the block is destroyed.
pub with_block :
    Machine
    → ℕ
    → ℕ
    → Bool
    → Bool
    → (State → Option (State × Result))
    → State
    → Option (State × Result)
with_block e x size use_mmap huge body s = do
  created ← step s (construct x size use_mmap huge (e.answers s size))
  if absent x created then some (created, failed) else (body created >>= λ (t, r). finish x t r)

-- A body that goes through the memory of the block, and prints.
abbrev pub on_memory : Option Memory → List ℕ → State → Option (State × Result)
on_memory m row s = do after ← m; some (s, printed row)

-- A new mapping holds zeros.
abbrev pub fresh : Memory
fresh p = 0

-- `touch_all_pages` and the three access patterns.
abbrev pub patterns : Machine → ℕ → ℕ → ℕ → Memory → Option Memory
patterns e size iterations stride m = do
  touched ← touch_all_pages size m
  sequential ← sequential_access size iterations touched
  random ← random_access size iterations (e.shuffled (size / 64)) sequential
  stride_access size iterations stride random

abbrev pub tlb_entries : ℕ
tlb_entries = 1536

pub est_misses : ℕ → ℕ
est_misses size =
    if ltb (tlb_entries * page_size) size then (size - tlb_entries * page_size) / page_size else 0

-- The tests of a list of sizes, one after the other.
pub for_each : (ℕ → State → Option (State × Result)) → List ℕ → State → Option (State × List Result)
for_each test [] s = some (s, [])
for_each test (size ∷ sizes) s = do
  (t, r) ← test size s
  (u, rs) ← for_each test sizes t
  some (u, r ∷ rs)

pub tlb_row : Machine → ℕ → State → Option (State × Result)
unfolding with_block est_misses
tlb_row e size =
    with_block e 0 size true false
      (on_memory (patterns e size 10 page_size fresh) (est_misses size ∷ []))

abbrev pub tlb_sizes : ℕ → List ℕ
tlb_sizes memory_size = 4 * 1024 ∷ 64 * 1024 ∷ 1024 * 1024 ∷ 16 * 1024 * 1024 ∷ memory_size ∷ []

pub test_tlb_misses : Machine → ℕ → State → Option (State × List Result)
unfolding tlb_row for_each
test_tlb_misses e memory_size = for_each (tlb_row e) (tlb_sizes memory_size)

-- `for (size_t i = 0; i < test_size; i += PAGE_SIZE) p[i] = 1`, and with `p[i]++`
abbrev first_touch : ℕ → Memory → Option Memory
first_touch size = strided (suc size) size page_size (λ v. 1) 0

abbrev second_touch : ℕ → Memory → Option Memory
second_touch size m = do
  touched ← touch_all_pages size m
  strided (suc size) size page_size bump 0 touched

-- The loops of the tests 1 to 3; `madvise` changes no byte.
fault_loop : ℕ → ℕ → Option Memory
fault_loop size test = if test == 2 then second_touch size fresh else first_touch size fresh

pub fault_test : Machine → ℕ → ℕ → State → Option (State × Result)
unfolding with_block fault_loop
fault_test e size test = with_block e 0 size true false (on_memory (fault_loop size test) [])

pub test_page_faults : Machine → ℕ → State → Option (State × List Result)
unfolding fault_test for_each
test_page_faults e memory_size = for_each (fault_test e memory_size) (1 ∷ 2 ∷ 3 ∷ [])

abbrev huge_page_size : ℕ
huge_page_size = 2 * 1024 * 1024

-- A size rounded up to whole huge pages.
abbrev round_up : ℕ → ℕ
round_up size =
    if size % huge_page_size == 0 then size else (size / huge_page_size + 1) * huge_page_size

abbrev pub huge_test_size : ℕ
huge_test_size = round_up (256 * 1024 * 1024)

-- With regular pages, and with huge ones.
pub huge_test : Machine → ℕ → State → Option (State × Result)
unfolding with_block
huge_test e huge =
    with_block e 0 huge_test_size true (huge == 1)
      (on_memory (patterns e huge_test_size 5 (64 * 1024) fresh) [])

pub test_huge_pages : Machine → State → Option (State × List Result)
unfolding huge_test for_each
test_huge_pages e = for_each (huge_test e) (0 ∷ 1 ∷ [])

-- The memory from `malloc` holds what it held before, `stale`.
pub compare_row : Machine → Memory → ℕ → State → Option (State × Result)
unfolding with_block
compare_row e stale size = with_block e 0 size false false (λ s.
    sequential_access size 1 stale >>= λ _.
    with_block e 1 size true false (on_memory (sequential_access size 1 fresh) []) s)

pub fault_comparison : Machine → Memory → ℕ → State → Option (State × Result)
unfolding with_block
fault_comparison e stale size = with_block e 0 size false false (λ s.
    touch_all_pages size stale >>= λ _.
    with_block e 1 size true false (on_memory (touch_all_pages size fresh) []) s)

abbrev pub compared_sizes : List ℕ
compared_sizes = 1024 * 1024 ∷ 16 * 1024 * 1024 ∷ 128 * 1024 * 1024 ∷ []

abbrev pub half_size : ℕ
half_size = 64 * 1024 * 1024

pub test_mmap_vs_malloc : Machine → Memory → State → Option (State × List Result)
unfolding compare_row fault_comparison for_each
test_mmap_vs_malloc e stale s = do
  (t, rs) ← for_each (compare_row e stale) compared_sizes s
  (u, r) ← fault_comparison e stale half_size t
  some (u, r ∷ rs)
