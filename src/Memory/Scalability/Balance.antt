-- ===== src/Memory/Scalability/Balance.antt =====
-- src/memory_allocator_benchmarker.cpp, `scalability_test`: what the threads' statistics say.
use context_switching.Prelude.{
  ℕ, suc, ◌+◌, ◌*◌, ◌^◌, ◌≤◌, ◌<◌, ◌≡◌, ◌≢◌, refl, List, [], ◌∷◌, Option, none, some, accumulate,
  All, length, arith,
}
use context_switching.Prelude.Words.{u64}
use context_switching.Prelude.Double.{Double}
use context_switching.Memory.Statistics.{Statistics, new_statistics, update_allocation, update_free}
use context_switching.Memory.Pattern.{AllocationPattern, exponential}
use context_switching.Memory.Pattern.Bounds.{generate_bounds, size_limit}
use context_switching.Memory.Benchmarker.{Trial}
use context_switching.Memory.Scalability.{
  allocate_and_free, thread_work, run_threads, add_ops, total_ops,
}

-- After `i` iterations of one thread.
pub record Balanced {F : Double} (i : ℕ) (s : Statistics F) : Type 0 where
  pub nothing_left : s.current_allocated ≡ 0
  pub as_many : s.free_count ≡ s.allocation_count
  pub all_counted : s.allocation_count + s.failed_allocations ≡ i

-- The allocations of all threads.
abbrev pub allocations : {F : Double} → List (Statistics F) → ℕ
allocations [] = 0
allocations (s ∷ ss) = s.allocation_count + allocations ss

-- Each thread's statistics against its iterations.
abbrev pub AllBalanced : {F : Double} → List (List (Trial F)) → List (Statistics F) → Type 0
AllBalanced [] [] = Unit
AllBalanced (ts ∷ rest) (s ∷ ss) = Balanced (length ts) s × AllBalanced rest ss
AllBalanced _ _ = ⊥

total_ops-from :
    {F : Double} (trials : List (List (Trial F))) (ss : List (Statistics F)) (n : ℕ)
    → AllBalanced trials ss
    → u64 (accumulate add_ops n ss) ≡ u64 (n + 2 * allocations ss)
total_ops-from [] [] n h = omega arith
total_ops-from (ts ∷ rest) [] n h = absurd h
total_ops-from [] (s ∷ ss) n h = absurd h
total_ops-from (ts ∷ rest) (s ∷ ss) n h =
    omega (arith, h.0.as_many, total_ops-from rest ss (add_ops n s) h.1)

module _ (F : Double) (exp_of_minus : F.Num → F.Num) (pattern : AllocationPattern)
    (min_size max_size : ℕ) (known : pattern ≢ exponential) (apart : min_size + 10 ≤ max_size)
    (bounded : max_size < 2 ^ 50) where
  allocate_and_free-Balanced :
      (i size : ℕ) (time : F.Num) (o : Option F.Num) (s : Statistics F)
      → size < 2 ^ 63
      → i < 2 ^ 63
      → Balanced i s
      → Balanced (suc i) (allocate_and_free F exp_of_minus pattern min_size max_size size time o s)
  unfolding update_allocation update_free
  allocate_and_free-Balanced i size time none s q h b = record {
    nothing_left = b.nothing_left;
    as_many = b.as_many;
    all_counted = omega (arith, b.all_counted);
  }
  allocate_and_free-Balanced i size time (some a) s q h b = record {
    nothing_left = omega (arith, b.nothing_left);
    as_many = omega (arith, b.as_many);
    all_counted = omega (arith, b.all_counted);
  }

  size_fits : (size : ℕ) → size < size_limit pattern max_size → size < 2 ^ 63
  size_fits size h = ground (arith, h, pattern, bounded)

  thread_work-Balanced :
      (ts : List (Trial F)) (i : ℕ) (s : Statistics F)
      → i + length ts < 2 ^ 63
      → Balanced i s
      → (r : Statistics F) × (thread_work F exp_of_minus pattern min_size max_size i ts s ≡ some r)
        × Balanced (i + length ts) r
  unfolding thread_work
  thread_work-Balanced [] i s h b = (
    s,
    refl,
    record {
      nothing_left = b.nothing_left;
      as_many = b.as_many;
      all_counted = omega (arith, b.all_counted);
    },
  )
  thread_work-Balanced (t ∷ ts) i s h b =
      let (size, e, low, up) =
        generate_bounds F exp_of_minus pattern min_size max_size i t.draw known apart
          (omega (arith, bounded)) in
      let c =
        allocate_and_free-Balanced i size t.free_time t.alloc_time s (size_fits size up)
          (omega (arith, h)) b in
      let (r, f, d) = thread_work-Balanced ts (suc i) _ (omega (arith, h)) c in
      (
        r,
        rw e f,
        record {
          nothing_left = d.nothing_left;
          as_many = d.as_many;
          all_counted = omega (arith, d.all_counted);
        },
      )

  -- For sizes at least ten apart and below 2^50 and a pattern that is not the exponential one, all
  -- threads with fewer than 2^63 iterations end without a division by zero. In the statistics of each, nothing is left allocated,
  -- releases and allocations are as many, and allocations and failures together are its iterations;
  -- the total of operations is twice the allocations of all threads, modulo 2^64.
  pub scalability-Balanced :
      (largest : F.Num) (trials : List (List (Trial F)))
      → All (λ ts. length ts < 2 ^ 63) trials
      → (ss : List (Statistics F)) × (run_threads F exp_of_minus pattern min_size max_size largest
            trials
          ≡ some ss)
        × AllBalanced trials ss
        × (u64 (total_ops ss) ≡ u64 (2 * allocations ss))
  unfolding run_threads total_ops
  scalability-Balanced largest [] h = ([], refl, tt, refl)
  scalability-Balanced largest (ts ∷ rest) h =
      let start : Balanced 0 (new_statistics F largest) = record {
        nothing_left = refl;
        as_many = refl;
        all_counted = omega arith;
      } in
      let (s, e, b) =
        thread_work-Balanced ts 0 (new_statistics F largest) (omega (arith, h.0)) start in
      let (ss, f, bs, ops) = scalability-Balanced largest rest h.1 in
      let b' : Balanced (length ts) s = record {
        nothing_left = b.nothing_left;
        as_many = b.as_many;
        all_counted = omega (arith, b.all_counted);
      } in
      (
        s ∷ ss,
        rw (e, f) refl,
        (b', bs),
        omega (arith, total_ops-from (ts ∷ rest) (s ∷ ss) 0 (b', bs)),
      )
