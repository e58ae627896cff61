-- ===== src/Memory/Scalability.antt =====
-- src/memory_allocator_benchmarker.cpp: `scalability_test`. Each thread updates its own statistics, and
-- the totals are taken once all have been joined.
pub mod Balance
use context_switching.Prelude.{
  ℕ, suc, ◌+◌, ◌/◌, List, [], ◌∷◌, Option, none, some, ◌>>=◌, accumulate,
}
use context_switching.Prelude.Words.{u64}
use context_switching.Prelude.Double.{Double}
use context_switching.Memory.Statistics.{Statistics, new_statistics, update_allocation, update_free}
use context_switching.Memory.Pattern.{AllocationPattern, Draw, generate}
use context_switching.Memory.Benchmarker.{Trial}

abbrev pub thread_counts : List ℕ
thread_counts = 1 ∷ 2 ∷ 4 ∷ 8 ∷ 16 ∷ []

abbrev pub iterations_per_thread : ℕ → ℕ
iterations_per_thread num_threads = 1000 / num_threads

module _ (F : Double) (exp_of_minus : F.Num → F.Num) (pattern : AllocationPattern)
    (min_size max_size : ℕ) where
  abbrev pub allocate_and_free : ℕ → F.Num → Option F.Num → Statistics F → Statistics F
  allocate_and_free size free_time none s = record s {
    failed_allocations = u64 (s.failed_allocations + 1);
  }
  allocate_and_free size free_time (some time) s =
      update_free F size free_time (update_allocation F size time s)

  -- The iterations of one thread from the `i`th on.
  pub thread_work : ℕ → List (Trial F) → Statistics F → Option (Statistics F)
  thread_work i [] s = some s
  thread_work i (t ∷ ts) s = do
    size ← generate F exp_of_minus pattern min_size max_size i t.draw
    thread_work (suc i) ts (allocate_and_free size t.free_time t.alloc_time s)

  -- All threads, each with fresh statistics.
  pub run_threads : F.Num → List (List (Trial F)) → Option (List (Statistics F))
  run_threads largest [] = some []
  run_threads largest (ts ∷ rest) = do
    s ← thread_work 0 ts (new_statistics F largest)
    ss ← run_threads largest rest
    some (s ∷ ss)

abbrev pub add_ops : {F : Double} → ℕ → Statistics F → ℕ
add_ops ops s = u64 (u64 (ops + s.allocation_count) + s.free_count)

pub total_ops : {F : Double} → List (Statistics F) → ℕ
total_ops = accumulate add_ops 0
