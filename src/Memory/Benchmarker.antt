-- ===== src/Memory/Benchmarker.antt =====
-- src/memory_allocator_benchmarker.cpp: `MemoryBenchmarker`, its histograms and `speed_test`.
-- `none` is a division by zero or an access out of bounds; the vectors of the benchmark itself always
-- get their memory.
pub mod Speed
use context_switching.Prelude.{
  ℕ, suc, ◌+◌, ◌-◌, ◌*◌, ◌/◌, ◌%◌, ◌^◌, List, [], ◌∷◌, ◌++◌, Option, none, some, Bool, true, false,
  ltb, leb, ◌==◌, ◌&&◌, if◌then◌else◌, ◌>>=◌, length, get_elem?, modify?, replicate,
}
use context_switching.Prelude.Words.{u64}
use context_switching.Prelude.Double.{Double}
use context_switching.Memory.Statistics.{Statistics, new_statistics, update_allocation, update_free}
use context_switching.Memory.Pattern.{AllocationPattern, random, Draw, generate}

abbrev pub histogram_buckets : ℕ
histogram_buckets = 50

pub record MemoryBenchmarker (F : Double) : Type 0 where
  pub global_stats : Statistics F
  pub size_histogram : List F.Num
  pub time_histogram : List F.Num
  pub histogram_max_size : ℕ

-- What the machine does in one iteration of `speed_test`: the time of the allocation, unless it throws
-- `std::bad_alloc`, and the time of the release, if there is one.
pub record Trial (F : Double) : Type 0 where
  pub draw : Draw F
  pub alloc_time : Option F.Num
  pub free_draw : Draw F
  pub free_time : F.Num

-- The blocks of the vector `allocations`, by size; `none` is a null pointer.
abbrev pub Blocks : Type 0
Blocks = List (Option ℕ)

abbrev pub last_bucket : ℕ → ℕ
last_bucket bucket = if leb histogram_buckets bucket then histogram_buckets - 1 else bucket

-- A `size_t` as an `int` that is an index: a negative one is out of bounds.
abbrev pub int_index : ℕ → Option ℕ
int_index n = if ltb (n % 2 ^ 32) (2 ^ 31) then some (n % 2 ^ 32) else none

abbrev pub size_bucket : ℕ → ℕ → Option ℕ
size_bucket size max_size = if max_size == 0 then none else int_index (u64 (size * 50) / max_size)

module _ (F : Double) where
  open F use {Num, of_nat, add, mul, div, trunc}

  abbrev pub new_benchmarker : Num → ℕ → MemoryBenchmarker F
  new_benchmarker largest max_size = record {
    global_stats = new_statistics F largest;
    size_histogram = replicate histogram_buckets (of_nat 0);
    time_histogram = replicate histogram_buckets (of_nat 0);
    histogram_max_size = max_size;
  }

  -- Ten microseconds in a bucket. Times are not negative, and the cast of one beyond `int` is undefined.
  abbrev pub time_bucket : Num → Option ℕ
  time_bucket time =
      let bucket = trunc (div (mul time (of_nat 1000000)) (of_nat 10)) in
      if ltb bucket (2 ^ 31) then some bucket else none

  abbrev pub count_one : Num → Num
  count_one n = add n (of_nat 1)

  unfoldable pub update_histogram : ℕ → Num → MemoryBenchmarker F → Option (MemoryBenchmarker F)
  update_histogram size time b = do
    i ← size_bucket size b.histogram_max_size
    sizes ← modify? b.size_histogram (last_bucket i) count_one
    j ← time_bucket time
    times ← modify? b.time_histogram (last_bucket j) count_one
    some (record b { size_histogram = sizes; time_histogram = times })

  -- The release of a block counts the size of the block just allocated.
  abbrev pub release :
      ℕ → ℕ → Num → MemoryBenchmarker F → Blocks → Option ℕ → Option (MemoryBenchmarker F × Blocks)
  release idx size time b blocks none = some (b, blocks)
  release idx size time b blocks (some held) = do
    rest ← modify? blocks idx (λ _. none)
    some (record b { global_stats = update_free F size time b.global_stats }, rest)

module _ (F : Double) (exp_of_minus : F.Num → F.Num) where
  unfoldable pub free_one :
      ℕ → ℕ → Trial F → MemoryBenchmarker F → Blocks → Option (MemoryBenchmarker F × Blocks)
  free_one i size t b blocks = do
    free_idx ← generate F exp_of_minus random 0 (length blocks - 1) i t.free_draw
    block ← get_elem? blocks free_idx
    release F free_idx size t.free_time b blocks block

  abbrev pub free_every_other :
      ℕ → ℕ → Trial F → MemoryBenchmarker F → Blocks → Option (MemoryBenchmarker F × Blocks)
  free_every_other i size t b blocks =
      if (i % 2 == 0) && ltb 0 i then free_one i size t b blocks else some (b, blocks)

  abbrev pub allocated : ℕ → F.Num → MemoryBenchmarker F → MemoryBenchmarker F
  allocated size time b = record b { global_stats = update_allocation F size time b.global_stats }

  unfoldable pub keep_block :
      ℕ
      → ℕ
      → Trial F
      → Option F.Num
      → MemoryBenchmarker F
      → Blocks
      → Option (MemoryBenchmarker F × Blocks)
  keep_block i size t none b blocks = some (
    record b {
      global_stats = record b.global_stats {
        failed_allocations = u64 (b.global_stats.failed_allocations + 1);
      };
    },
    blocks,
  )
  keep_block i size t (some time) b blocks = do
    c ← update_histogram F size time (allocated size time b)
    free_every_other i size t c (blocks ++ some size ∷ [])

  module _ (pattern : AllocationPattern) (min_size max_size : ℕ) where
    unfoldable pub speed_round :
        ℕ → Trial F → MemoryBenchmarker F → Blocks → Option (MemoryBenchmarker F × Blocks)
    speed_round i t b blocks = do
      size ← generate F exp_of_minus pattern min_size max_size i t.draw
      keep_block i size t t.alloc_time b blocks

    unfoldable pub speed_loop :
        ℕ → List (Trial F) → MemoryBenchmarker F → Blocks → Option (MemoryBenchmarker F × Blocks)
    speed_loop i [] b blocks = some (b, blocks)
    speed_loop i (t ∷ ts) b blocks = do
      (c, rest) ← speed_round i t b blocks
      speed_loop (suc i) ts c rest

    unfoldable pub speed_test :
        List (Trial F) → MemoryBenchmarker F → Option (MemoryBenchmarker F × Blocks)
    speed_test trials b = speed_loop 0 trials b []
