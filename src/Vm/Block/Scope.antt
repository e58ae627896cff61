-- ===== src/Vm/Block/Scope.antt =====
-- src/vm_explorer.cpp, `MemoryBlock`: a block that is created and destroyed.
use mathlib.Core.Path.{fun_ext}
use native.Mathlib.Decide.{ℕ_discrete}
use context_switching.Prelude.{ℕ, ◌≡◌, ◌≢◌, ◌⊎◌, Bool, true, false, none, some, inr, arith}
use context_switching.Vm.Block.{
  State, Answers, construct, destroy, step, allocate, update, give, nullptr, construct_at,
  destroy_at, deallocate, release, matching, same_flag, map_failed, map_or_throw,
}

-- The state with the block x in it.
abbrev pub with_new : ℕ → ℕ → Bool → ℕ → State → State
with_new x size use_mmap p s = record {
  variable = update s.variable x (some (record { ptr = p; size = size; is_mmap = use_mmap }));
  region = give p (record { extent = size; mapped = use_mmap }) s.region;
}

pub constructed :
    (x size : ℕ) (use_mmap huge : Bool) (r : Answers) (p : ℕ) (s : State)
    → s.variable x ≡ none
    → allocate r use_mmap huge ≡ some p
    → step s (construct x size use_mmap huge r) ≡ some (with_new x size use_mmap p s)
unfolding step construct_at
constructed x size use_mmap huge r p s a e = ground (arith, a, e)

pub thrown :
    (x size : ℕ) (use_mmap huge : Bool) (r : Answers) (s : State)
    → s.variable x ≡ none
    → allocate r use_mmap huge ≡ none
    → step s (construct x size use_mmap huge r) ≡ some s
unfolding step construct_at
thrown x size use_mmap huge r s a e = ground (arith, a, e)

pub destroyed :
    (x size : ℕ) (use_mmap : Bool) (p : ℕ) (s : State)
    → s.variable x ≡ none
    → s.region p ≡ none
    → step (with_new x size use_mmap p s) (destroy x) ≡ some s
unfolding step destroy_at deallocate release matching same_flag
destroyed x size use_mmap p s a f =
    let back : update (with_new x size use_mmap p s).variable x none ≡ s.variable =
      fun_ext (λ y. ground (arith, a)) in
    elim (ℕ_discrete p nullptr) [
      | yes z ↦ ground (arith, z, back)
      | no z ↦
          let free : update (update s.region p (some (record { extent = size; mapped = use_mmap })))
                p none
              ≡ s.region =
            fun_ext (λ q. ground (arith, f)) in
          ground (arith, z, back, free)
    ]

-- Where a pointer comes from.
pub allocate-some :
    (r : Answers) (use_mmap huge : Bool) (p : ℕ)
    → allocate r use_mmap huge ≡ some p
    → ((p ≢ map_failed) × ((p ≡ r.first) ⊎ (p ≡ r.retry))) ⊎ (r.aligned ≡ some p)
unfolding allocate map_or_throw
allocate-some r true true p e = ground arith
allocate-some r true false p e = ground arith
allocate-some r false huge p e = inr e
