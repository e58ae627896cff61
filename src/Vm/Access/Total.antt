-- ===== src/Vm/Access/Total.antt =====
-- src/vm_explorer.cpp, `MemoryAccessor<char>`: the loops end and stay within the buffer.
use mathlib.Core.List.{Perm}
use context_switching.Prelude.{
  ℕ, zero, suc, ◌+◌, ◌/◌, ◌^◌, ◌<◌, ◌≡◌, refl, List, Option, some, arith,
}
use context_switching.Prelude.Occurrences.{iota}
use context_switching.Vm.Access.{
  Memory, repeated, indexed, strided, bump, touch_all_pages, sequential_access, stride_access,
  random_access, page_size, cache_line_size,
}
use context_switching.Vm.Access.Written.{written, every, strided-written, indexed-written}

abbrev pub Succeeds : Option Memory → Type 0
Succeeds r = (m : Memory) × (r ≡ some m)

repeated_total :
    (n : ℕ) (body : Memory → Option Memory) (m : Memory)
    → ((m : Memory) → Succeeds (body m))
    → Succeeds (repeated n body m)
unfolding repeated
repeated_total zero body m h = (m, refl)
repeated_total (suc n) body m h =
    let (k, e) = h m in let (l, f) = repeated_total n body k h in (l, rw e f)

pub strided_total :
    (size stride : ℕ) (f : ℕ → ℕ) (m : Memory)
    → 0 < stride
    → size + stride < 2 ^ 64
    → Succeeds (strided (suc size) size stride f 0 m)
strided_total size stride f m p h =
    (written (every stride size) f m, strided-written size stride f m p h)

module _ (size : ℕ) (fits : size < 2 ^ 47) where
  pub touch_all_pages_total : (m : Memory) → Succeeds (touch_all_pages size m)
  unfolding touch_all_pages
  touch_all_pages_total m =
      strided_total size page_size (λ v. 1) m (omega arith) (omega (arith, fits))

  pub sequential_access_total :
      (iterations : ℕ) (m : Memory) → Succeeds (sequential_access size iterations m)
  unfolding sequential_access
  sequential_access_total iterations m =
      repeated_total iterations _ m
        (λ m. strided_total size cache_line_size bump m (omega arith) (omega (arith, fits)))

  pub stride_access_total :
      (iterations stride : ℕ) (m : Memory)
      → 0 < stride
      → stride < 2 ^ 47
      → Succeeds (stride_access size iterations stride m)
  unfolding stride_access
  stride_access_total iterations stride m p h =
      repeated_total iterations _ m
        (λ m. strided_total size stride bump m p (omega (arith, fits, h)))

  pub random_access_total :
      (iterations : ℕ) (indices : List ℕ) (m : Memory)
      → Perm indices (iota 0 (size / cache_line_size))
      → Succeeds (random_access size iterations indices m)
  unfolding random_access
  random_access_total iterations indices m s =
      repeated_total iterations (indexed size indices) m
        (λ m. (_, indexed-written size indices m s))
