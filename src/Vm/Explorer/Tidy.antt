-- ===== src/Vm/Explorer/Tidy.antt =====
-- src/vm_explorer.cpp, `VMExplorer`: a `try` block with a MemoryBlock leaves the state as it was.
use context_switching.Prelude.{
  ℕ, ◌^◌, ◌<◌, ◌≡◌, refl, Bool, true, false, Option, none, some, Option-cases, inl, inr, arith,
}
use context_switching.Vm.Block.{State, allocate, absent}
use context_switching.Vm.Block.Scope.{with_new, constructed, thrown, destroyed}
use context_switching.Vm.Explorer.{Machine, Result, failed, with_block}

-- The system gives out no address in use, and a block that it gives out is shorter than 2^47 bytes, the
-- whole of the address space.
pub record IsSystem (e : Machine) : Type 0 where
  pub fresh_address :
      (s : State) (size p : ℕ) (use_mmap huge : Bool)
      → allocate (e.answers s size) use_mmap huge ≡ some p
      → s.region p ≡ none
  pub fits :
      (s : State) (size p : ℕ) (use_mmap huge : Bool)
      → allocate (e.answers s size) use_mmap huge ≡ some p
      → size < 2 ^ 47

-- What the `try` block leads to: the body's result, if the block can be allocated.
abbrev pub outcome : Option ℕ → (ℕ → Result) → Result
outcome none r = failed
outcome (some p) r = r p

module _ (e : Machine) (system : IsSystem e) where
  pub with_block_lem :
      (x size : ℕ) (use_mmap huge : Bool) (body : State → Option (State × Result)) (r : ℕ → Result)
      (s : State)
      → s.variable x ≡ none
      → ((p : ℕ)
          → size < 2 ^ 47
          → body (with_new x size use_mmap p s) ≡ some (with_new x size use_mmap p s, r p))
      → with_block e x size use_mmap huge body s
        ≡ some (s, outcome (allocate (e.answers s size) use_mmap huge) r)
  unfolding with_block
  with_block_lem x size use_mmap huge body r s a h =
      elim (Option-cases (allocate (e.answers s size) use_mmap huge)) [
        | inl f ↦
            let gone : absent x s ≡ true = ground (arith, a) in
            rw (f, thrown x size use_mmap huge (e.answers s size) s a f, gone) refl
        | inr (p, f) ↦
            let present : absent x (with_new x size use_mmap p s) ≡ false = ground arith in
            rw
              (
                f,
                constructed x size use_mmap huge (e.answers s size) p s a f,
                present,
                h p (system.fits s size p use_mmap huge f),
                destroyed x size use_mmap p s a (system.fresh_address s size p use_mmap huge f),
              )
              refl
      ]
