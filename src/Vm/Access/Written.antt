-- ===== src/Vm/Access/Written.antt =====
-- src/vm_explorer.cpp, `MemoryAccessor<char>`, `touch_all_pages`: the memory that the loops leave.
use mathlib.Core.Path.{fun_ext}
use mathlib.Core.List.{Perm}
use native.Mathlib.Decide.{ℕ_discrete}
use native.Mathlib.Nat.{le-div_iff_mul-le, div-add-mod'}
use context_switching.Prelude.{
  ℕ, zero, suc, ◌+◌, ◌-◌, ◌*◌, ◌/◌, ◌%◌, ◌^◌, ◌<◌, ◌≡◌, refl, sym, ap, subst, ◌∙◌, Bool, true,
  false, ◌&&◌, List, [], ◌∷◌, Option, some, ltb, leb, ◌==◌, if◌then◌else◌, All, arith, lt→ltb,
}
use context_switching.Prelude.Strides.{places}
use context_switching.Prelude.Occurrences.{count, iota, count-iota, count-Perm, All-of_count}
use context_switching.Vm.Block.{update}
use context_switching.Vm.Access.{
  Memory, repeated, strided, indexed, bump, touch_all_pages, sequential_access, stride_access,
  random_access, page_size, cache_line_size,
}
use context_switching.Vm.Access.Places.{
  iterate, applied, applied_lem, scaled, count-scaled, strided-applied,
}

-- `f` done once to the bytes that pass the test, and the others as they were.
abbrev pub written : (ℕ → Bool) → (ℕ → ℕ) → Memory → Memory
written test f m p = if test p then f (m p) else m p

abbrev pub every : ℕ → ℕ → ℕ → Bool
every stride size p = (p % stride == 0) && ltb p size

repeated_lem :
    (n : ℕ) (body : Memory → Option Memory) (g : Memory → Memory) (m : Memory)
    → ((m : Memory) → body m ≡ some (g m))
    → repeated n body m ≡ some (iterate n g m)
unfolding repeated
repeated_lem zero body g m h = refl
repeated_lem (suc n) body g m h = rw (h m) (repeated_lem n body g (g m) h)

below_places :
    (p size stride : ℕ)
    → 0 < stride
    → p % stride ≡ 0
    → ltb (p / stride) (places size stride 0) ≡ ltb p size
below_places p size stride h z =
    let (to, from) =
      le-div_iff_mul-le {k = stride} {x = suc (p / stride)} {y = size - 0 + (stride - 1)} h in
    ground (arith, to, from, h, z, div-add-mod' p stride)

count-every :
    (p size stride : ℕ)
    → 0 < stride
    → count p (scaled stride (iota 0 (places size stride 0)))
      ≡ (if every stride size p then 1 else 0)
count-every p size stride h = elim (ℕ_discrete (p % stride) 0) [
  | yes z ↦
      count-scaled p stride (iota 0 (places size stride 0)) h
      ∙ ground (
        arith,
        z,
        count-iota (p / stride) (places size stride 0) 0,
        below_places p size stride h z,
      )
  | no n ↦ count-scaled p stride (iota 0 (places size stride 0)) h ∙ ground (arith, n)
]

iterate_if :
    (b : Bool) (n : ℕ) (f : ℕ → ℕ) (v : ℕ)
    → n ≡ (if b then 1 else 0)
    → iterate n f v ≡ (if b then f v else v)
iterate_if true n f v e = rw e refl
iterate_if false n f v e = rw e refl

-- The places below the size at multiples of the stride are written once.
pub strided-written :
    (size stride : ℕ) (f : ℕ → ℕ) (m : Memory)
    → 0 < stride
    → size + stride < 2 ^ 64
    → strided (suc size) size stride f 0 m ≡ some (written (every stride size) f m)
strided-written size stride f m h k =
    let zero : 0 * stride ≡ 0 = omega arith in
    subst
      (λ i.
        strided (suc size) size stride f i m
        ≡ some (applied f (scaled stride (iota 0 (places size stride i))) m))
      zero (strided-applied size stride f h k (suc size) 0 m (omega arith) (omega arith))
    ∙ ap some (
        fun_ext (λ p.
          applied_lem f (scaled stride (iota 0 (places size stride 0))) m p
          ∙ iterate_if (every stride size p) _ f (m p) (count-every p size stride h)))

indexed-applied :
    (size : ℕ) (indices : List ℕ) (m : Memory)
    → All (λ i. i * cache_line_size < size) indices
    → indexed size indices m ≡ some (applied bump (scaled cache_line_size indices) m)
unfolding indexed
indexed-applied size [] m h = refl
indexed-applied size (i ∷ is) m h =
    rw (lt→ltb _ _ h.0) (
      indexed-applied size is (update m (i * cache_line_size) (bump (m (i * cache_line_size)))) h.1)

-- Whatever the shuffle, the accesses at random indices write each whole cache line once.
pub indexed-written :
    (size : ℕ) (indices : List ℕ) (m : Memory)
    → Perm indices (iota 0 (size / cache_line_size))
    → indexed size indices m
      ≡ some (
          written
            (λ p. (p % cache_line_size == 0) && ltb (p / cache_line_size) (size / cache_line_size))
            bump
            m)
indexed-written size indices m s =
    let n = size / cache_line_size in
    let same : (p : ℕ) → count p indices ≡ (if leb 0 p && ltb p n then 1 else 0) =
      λ p. count-Perm p indices (iota 0 n) s ∙ ground (arith, count-iota p n 0) in
    indexed-applied size indices m
      (All-of_count (λ i. i * cache_line_size < size) indices (λ a l. ground (arith, same a, l)))
    ∙ ap some (
        fun_ext (λ p.
          applied_lem bump (scaled cache_line_size indices) m p
          ∙ iterate_if _ _ bump (m p) (
              count-scaled p cache_line_size indices (omega arith)
              ∙ ground (arith, same (p / cache_line_size)))))

-- For a buffer whose size is far enough from 2^64, `touch_all_pages` ends, stays in bounds and sets the
-- first byte of every page to 1; all other bytes are as they were.
touch_all_pages_lem :
    (size : ℕ) (m : Memory)
    → size + page_size < 2 ^ 64
    → touch_all_pages size m ≡ some (written (every page_size size) (λ v. 1) m)
unfolding touch_all_pages
touch_all_pages_lem size m h = strided-written size page_size (λ v. 1) m (omega arith) h

pub accesses_agree :
    (size iterations : ℕ) (indices : List ℕ) (m : Memory)
    → size % cache_line_size ≡ 0
    → size + cache_line_size < 2 ^ 64
    → Perm indices (iota 0 (size / cache_line_size))
    → (sequential_access size iterations m
        ≡ some (iterate iterations (written (every cache_line_size size) bump) m))
      × (random_access size iterations indices m ≡ sequential_access size iterations m)
      × (stride_access size iterations cache_line_size m ≡ sequential_access size iterations m)
unfolding sequential_access random_access stride_access
accesses_agree size iterations indices m z h s =
    let once : (m : Memory)
        → strided (suc size) size cache_line_size bump 0 m
          ≡ some (written (every cache_line_size size) bump m) =
      λ m. strided-written size cache_line_size bump m (omega arith) h in
    let all =
      repeated_lem iterations (strided (suc size) size cache_line_size bump 0)
        (written (every cache_line_size size) bump) m once in
    (
      all,
      repeated_lem iterations (indexed size indices) (written (every cache_line_size size) bump) m
            (λ m. indexed-written size indices m s ∙ ap some (fun_ext λ p. ground (arith, z)))
          ∙ sym all,
      refl,
    )
