-- ===== src/Vm/Access.antt =====
-- src/vm_explorer.cpp: `MemoryAccessor<char>` and `touch_all_pages`, the loops over a buffer. Memory
-- is a function from offsets into the buffer to bytes, and what the timers read is left out.
pub mod Places
pub mod Written
pub mod Total
use mathlib.Core.Logic.{ite}
use native.Mathlib.Decide.{ℕ_discrete}
use context_switching.Prelude.{
  ℕ, zero, suc, ◌+◌, ◌*◌, ◌/◌, ◌%◌, Bool, true, false, List, [], ◌∷◌, Option, none, some, ltb, ◌==◌,
  if◌then◌else◌, ◌>>=◌,
}
use context_switching.Prelude.Words.{u64}
use context_switching.Vm.Block.{update}

abbrev pub Memory : Type 0
Memory = ℕ → ℕ

abbrev pub page_size : ℕ
page_size = 4096

abbrev pub cache_line_size : ℕ
cache_line_size = 64

-- `ptr[p] = f(ptr[p])`; `none` is an access past the end of the buffer.
abbrev pub access : ℕ → (ℕ → ℕ) → ℕ → Memory → Option Memory
access size f p m = if ltb p size then some (update m p (f (m p))) else none

abbrev continue : Bool → Option Memory → Option Memory → Option Memory
continue true more m = more
continue false more m = m

-- `for (size_t i = …; i < size; i += stride) ptr[i] = f(ptr[i])`; `none` is fuel run out, too.
unfoldable pub strided : ℕ → ℕ → ℕ → (ℕ → ℕ) → ℕ → Memory → Option Memory
strided zero size stride f i m = none
strided (suc fuel) size stride f i m =
    continue (ltb i size) (access size f i m >>= strided fuel size stride f (u64 (i + stride)))
      (some m)

-- `for (int iter = 0; iter < iterations; ++iter)`
unfoldable pub repeated : ℕ → (Memory → Option Memory) → Memory → Option Memory
repeated zero body m = some m
repeated (suc iterations) body m = do after ← body m; repeated iterations body after

-- `ptr[i]++` on a byte
abbrev pub bump : ℕ → ℕ
bump v = (v + 1) % 256

unfoldable pub touch_all_pages : ℕ → Memory → Option Memory
touch_all_pages size = strided (suc size) size page_size (λ v. 1) 0

unfoldable pub sequential_access : ℕ → ℕ → Memory → Option Memory
sequential_access size iterations =
    repeated iterations (strided (suc size) size cache_line_size bump 0)

unfoldable pub stride_access : ℕ → ℕ → ℕ → Memory → Option Memory
stride_access size iterations stride_bytes =
    repeated iterations (strided (suc size) size stride_bytes bump 0)

-- The accesses at the indices, each in its cache line.
unfoldable pub indexed : ℕ → List ℕ → Memory → Option Memory
indexed size [] m = some m
indexed size (idx ∷ indices) m = do
  after ← access size bump (idx * cache_line_size) m
  indexed size indices after

-- `indices` is what the shuffle makes of the numbers below `size / 64`.
unfoldable pub random_access : ℕ → ℕ → List ℕ → Memory → Option Memory
random_access size iterations indices = repeated iterations (indexed size indices)
