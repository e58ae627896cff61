-- ===== src/Vm/Explorer/Run/Parts.antt =====
-- src/vm_explorer.cpp: the tests of `VMExplorer`, one by one.
use mathlib.Core.List.{Perm}
use context_switching.Prelude.{
  ℕ, suc, ◌+◌, ◌*◌, ◌/◌, ◌^◌, ◌<◌, ◌≡◌, refl, ap, Bool, true, false, List, [], ◌∷◌, ◌++◌, Option,
  none, some, ◌==◌, length, length-append, arith, Bool-cases, inl, inr,
}
use context_switching.Prelude.Occurrences.{iota}
use context_switching.Vm.Block.{State}
use context_switching.Vm.Block
use context_switching.Vm.Block.Scope.{with_new}
use context_switching.Vm.Access.{Memory, page_size, bump}
use context_switching.Vm.Access.Total.{
  Succeeds, strided_total, touch_all_pages_total, sequential_access_total, stride_access_total,
  random_access_total,
}
use context_switching.Vm.Explorer.{
  Machine, Result, printed, failed, with_block, patterns, on_memory, half_size, for_each, tlb_row,
  fault_test, fault_loop, huge_test, compare_row, fault_comparison, est_misses, fresh,
  huge_test_size,
}
use context_switching.Vm.Explorer.Tidy.{IsSystem, with_block_lem, outcome}
use context_switching.Vm.Explorer.Run.{copy_on_write_body, and_then}

-- A test that ends, stays in bounds and leaves the state as it was.
abbrev pub Keeps {ℓ} : {A : Type ℓ} → (State → Option (State × A)) → State → Type ℓ
Keeps {A = A} test s = (r : A) × (test s ≡ some (s, r))

-- So does one that prints so many results.
abbrev pub Prints : ℕ → (State → Option (State × List Result)) → State → Type 0
Prints n test s = (rs : List Result) × (test s ≡ some (s, rs)) × (length rs ≡ n)

on_memory_lem :
    (m : Option Memory) (row : List ℕ) (s : State)
    → Succeeds m
    → on_memory m row s ≡ some (s, printed row)
on_memory_lem m row s h = let (k, e) = h in rw e refl

pub for_each-Prints :
    (test : ℕ → State → Option (State × Result)) (sizes : List ℕ) (s : State)
    → ((size : ℕ) → Keeps (test size) s)
    → Prints (length sizes) (for_each test sizes) s
unfolding for_each
for_each-Prints test [] s h = ([], refl, refl)
for_each-Prints test (size ∷ sizes) s h =
    let (r, e) = h size in
    let (rs, f, l) = for_each-Prints test sizes s h in (r ∷ rs, rw (e, f) refl, ap suc l)

pub and_then-Prints :
    (m n : ℕ) (first second : State → Option (State × List Result)) (s : State)
    → Prints m first s
    → Prints n second s
    → Prints (m + n) (and_then first second) s
and_then-Prints m n first second s h k =
    let (rs, e, l) = h in
    let (more, f, j) = k in (rs ++ more, rw (e, f) refl, omega (arith, length-append rs more, l, j))

abbrev pub copy_on_write_result : Bool → Result
copy_on_write_result true = failed
copy_on_write_result false = printed (half_size / 2 / page_size ∷ [])

module _ (e : Machine) (system : IsSystem e)
    (shuffles : (n : ℕ) → Perm (e.shuffled n) (iota 0 n)) where
  patterns_total :
      (size iterations stride : ℕ) (m : Memory)
      → size < 2 ^ 47
      → 0 < stride
      → stride < 2 ^ 47
      → Succeeds (patterns e size iterations stride m)
  patterns_total size iterations stride m h p k =
      let (touched, a) = touch_all_pages_total size h m in
      let (seq, b) = sequential_access_total size h iterations touched in
      let (ran, c) =
        random_access_total size h iterations (e.shuffled (size / 64)) seq (shuffles (size / 64)) in
      let (str, d) = stride_access_total size h iterations stride ran p k in (str, rw (a, b, c) d)

  pub tlb_row-Keeps : (s : State) → s.variable 0 ≡ none → (size : ℕ) → Keeps (tlb_row e size) s
  unfolding tlb_row
  tlb_row-Keeps s a size = (
    _,
    with_block_lem e system 0 size true false _ (λ _. printed (est_misses size ∷ [])) s a
        (λ p h.
          on_memory_lem (patterns e size 10 page_size fresh) (est_misses size ∷ []) _
            (patterns_total size 10 page_size fresh h (omega arith) (omega arith))),
  )

  fault_loop_total : (size test : ℕ) → size < 2 ^ 47 → Succeeds (fault_loop size test)
  unfolding fault_loop
  fault_loop_total size test h = elim (Bool-cases (test == 2)) [
    | inl t ↦
        let (m, a) = touch_all_pages_total size h fresh in
        let (n, b) = strided_total size page_size bump m (omega arith) (omega (arith, h)) in
        (n, rw (t, a) b)
    | inr t ↦
        let (m, a) = strided_total size page_size (λ v. 1) fresh (omega arith) (omega (arith, h)) in
        (m, rw t a)
  ]

  pub fault_test-Keeps :
      (s : State) → s.variable 0 ≡ none → (size test : ℕ) → Keeps (fault_test e size test) s
  unfolding fault_test
  fault_test-Keeps s a size test = (
    _,
    with_block_lem e system 0 size true false _ (λ _. printed []) s a
        (λ p h. on_memory_lem (fault_loop size test) [] _ (fault_loop_total size test h)),
  )

  pub huge_test-Keeps : (s : State) → s.variable 0 ≡ none → (huge : ℕ) → Keeps (huge_test e huge) s
  unfolding huge_test
  huge_test-Keeps s a huge = (
    _,
    with_block_lem e system 0 huge_test_size true (huge == 1) _ (λ _. printed []) s a
        (λ p h.
          on_memory_lem (patterns e huge_test_size 5 (64 * 1024) fresh) [] _
            (patterns_total huge_test_size 5 (64 * 1024) fresh h (omega arith) (omega arith))),
  )

  inner_result : ℕ → State → ℕ → Result
  inner_result size s p =
      outcome (Block.allocate (e.answers (with_new 0 size false p s) size) true false)
        (λ _. printed [])

  -- The second block, in the scope of the first.
  inner :
      (m : Option Memory) (size p : ℕ) (s : State)
      → s.variable 1 ≡ none
      → Succeeds m
      → with_block e 1 size true false (on_memory m []) (with_new 0 size false p s)
        ≡ some (with_new 0 size false p s, inner_result size s p)
  unfolding inner_result
  inner m size p s a h =
      with_block_lem e system 1 size true false _ (λ _. printed []) (with_new 0 size false p s)
        (ground (arith, a)) (λ q k. on_memory_lem m [] _ h)

  pub compare_row-Keeps :
      (stale : Memory) (s : State)
      → s.variable 0 ≡ none
      → s.variable 1 ≡ none
      → (size : ℕ) → Keeps (compare_row e stale size) s
  unfolding compare_row
  compare_row-Keeps stale s a b size = (
    _,
    with_block_lem e system 0 size false false _ (inner_result size s) s a (λ p h.
        let (m, c) = sequential_access_total size h 1 stale in
        rw c (inner _ size p s b (sequential_access_total size h 1 fresh))),
  )

  pub fault_comparison-Keeps :
      (stale : Memory) (s : State)
      → s.variable 0 ≡ none
      → s.variable 1 ≡ none
      → (size : ℕ) → Keeps (fault_comparison e stale size) s
  unfolding fault_comparison
  fault_comparison-Keeps stale s a b size = (
    _,
    with_block_lem e system 0 size false false _ (inner_result size s) s a (λ p h.
        let (m, c) = touch_all_pages_total size h stale in
        rw c (inner _ size p s b (touch_all_pages_total size h fresh))),
  )

  pub copy_on_write_lem :
      (s : State) → copy_on_write_body e s ≡ some (s, copy_on_write_result e.pipe_fails)
  unfolding copy_on_write_body
  copy_on_write_lem s =
      let (m, a) =
        strided_total half_size page_size (λ v. v) (λ p. 171) (omega arith) (omega arith) in
      let (n, b) =
        strided_total (half_size / 2) page_size (λ v. 205) (λ p. 171) (omega arith) (omega arith) in
      elim (Bool-cases e.pipe_fails) [ inl t ↦ rw (a, t) refl | inr t ↦ rw (a, t, b) refl ]
