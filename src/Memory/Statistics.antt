-- ===== src/Memory/Statistics.antt =====
-- src/memory_allocator_benchmarker.cpp: `Statistics`, each update of which holds `stat_mutex`.
use context_switching.Prelude.{
  ℕ, ◌+◌, ◌-◌, ◌^◌, List, [], ◌∷◌, ◌++◌, Option, some, ltb, if◌then◌else◌, length, get_elem?,
  is_empty,
}
use context_switching.Prelude.Words.{u64}
use context_switching.Prelude.Double.{Double}
use context_switching.Prelude.Sort.{sort}

pub record Statistics (F : Double) : Type 0 where
  pub total_allocated : ℕ
  pub peak_allocated : ℕ
  pub current_allocated : ℕ
  pub allocation_count : ℕ
  pub free_count : ℕ
  pub failed_allocations : ℕ
  pub total_alloc_time : F.Num
  pub total_free_time : F.Num
  pub min_alloc_time : F.Num
  pub max_alloc_time : F.Num
  pub min_free_time : F.Num
  pub max_free_time : F.Num
  pub alloc_times : List F.Num
  pub free_times : List F.Num

module _ (F : Double) where
  open F use {Num, of_nat, add, mul, div, lt, trunc}

  -- `largest` is the largest value of double.
  abbrev pub new_statistics : Num → Statistics F
  new_statistics largest = record {
    total_allocated = 0;
    peak_allocated = 0;
    current_allocated = 0;
    allocation_count = 0;
    free_count = 0;
    failed_allocations = 0;
    total_alloc_time = of_nat 0;
    total_free_time = of_nat 0;
    min_alloc_time = largest;
    max_alloc_time = of_nat 0;
    min_free_time = largest;
    max_free_time = of_nat 0;
    alloc_times = [];
    free_times = [];
  }

  abbrev smaller : Num → Num → Num
  smaller a b = if lt b a then b else a

  abbrev larger : Num → Num → Num
  larger a b = if lt a b then b else a

  unfoldable pub update_allocation : ℕ → Num → Statistics F → Statistics F
  update_allocation size time s =
      let current = u64 (s.current_allocated + size) in
      record s {
        total_allocated = u64 (s.total_allocated + size);
        current_allocated = current;
        allocation_count = u64 (s.allocation_count + 1);
        total_alloc_time = add s.total_alloc_time time;
        alloc_times = s.alloc_times ++ time ∷ [];
        peak_allocated = if ltb s.peak_allocated current then current else s.peak_allocated;
        min_alloc_time = smaller s.min_alloc_time time;
        max_alloc_time = larger s.max_alloc_time time;
      }

  -- The subtraction wraps round below 0.
  unfoldable pub update_free : ℕ → Num → Statistics F → Statistics F
  update_free size time s = record s {
    current_allocated = u64 (s.current_allocated + (2 ^ 64 - size));
    free_count = u64 (s.free_count + 1);
    total_free_time = add s.total_free_time time;
    free_times = s.free_times ++ time ∷ [];
    min_free_time = smaller s.min_free_time time;
    max_free_time = larger s.max_free_time time;
  }

  abbrev least : ℕ → ℕ → ℕ
  least a b = if ltb b a then b else a

  -- `none` is an access out of bounds.
  unfoldable pub get_percentile : List Num → ℕ → Option Num
  get_percentile times percentile =
      if is_empty times
      then some (of_nat 0)
      else get_elem? (sort lt times) (
          least (trunc (div (mul (of_nat percentile) (of_nat (length times))) (of_nat 100)))
            (length times - 1))
