-- ===== src/Vm/Block/Owner/Refines.antt =====
-- src/vm_explorer.cpp, `MemoryBlock`: what a whole program does with blocks.
use context_switching.Prelude.{
  ℕ, ◌≡◌, subst, refl, inl, inr, false, List, [], ◌∷◌, none, some, arith, Option-cases,
}
use context_switching.Vm.Block.{State, Op, run, initial}
use context_switching.Vm.Block.Owner.{Owners, Agrees, owner_step, owner_run, no_owners}
use context_switching.Vm.Block.Owner.Steps.{step-Agrees}

-- Whatever a program does with its blocks within what C++ allows, and whatever fresh addresses or
-- failures the system answers with, no release goes wrong, and at the end the blocks and what the
-- system has given out agree with the map of owners: the blocks refine it.
pub blocks_refine_owners :
    (os : List Op) (a b : Owners) (s : State)
    → Agrees a s
    → owner_run a os ≡ some b
    → (t : State) × (run s os ≡ some t) × Agrees b t
unfolding owner_run run
blocks_refine_owners [] a b s g e = (s, refl, subst (λ o. Agrees o s) (ground (arith, e)) g)
blocks_refine_owners (o ∷ os) a b s g e = elim (Option-cases (owner_step a o)) [
  | inl f ↦ absurd (ground (arith, e, f))
  | inr (c, f) ↦
      let (t, u, h) = step-Agrees o a c s g f in
      let (v, r, k) = blocks_refine_owners os c b t h (ground (arith, e, f)) in (v, rw (u) r, k)
]

pub initial-Agrees : Agrees no_owners initial
initial-Agrees = record {
  known = λ x. refl;
  holds = λ x b v n. ground arith;
  held = λ p x f. ground (arith, f);
  unowned = λ p f. refl;
}

-- A program that starts with no block, follows the rules and ends with no block alive has given
-- everything back, each region once and in the way it was given out.
pub nothing_leaks :
    (os : List Op) (b : Owners)
    → owner_run no_owners os ≡ some b
    → ((x : ℕ) → b.alive x ≡ false)
    → (t : State) × (run initial os ≡ some t) × ((p : ℕ) → t.region p ≡ none)
nothing_leaks os b e h =
    let (t, r, k) = blocks_refine_owners os no_owners b initial initial-Agrees e in
    (
      t,
      r,
      λ p. elim (Option-cases (b.owner p)) [
        | inl f ↦ k.unowned p f
        | inr (x, f) ↦ let (c, v, i, j) = k.held p x f in absurd (ground (arith, h x, k.known x, v))
      ],
    )
