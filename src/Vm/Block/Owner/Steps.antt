-- ===== src/Vm/Block/Owner/Steps.antt =====
-- src/vm_explorer.cpp, `MemoryBlock`: each operation does what the map of owners says.
use mathlib.Core.Path.{fun_ext}
use native.Mathlib.Decide.{ℕ_discrete}
use context_switching.Prelude.{
  ℕ, ◌≡◌, subst, ap, ◌∙◌, refl, inl, inr, Bool, true, false, none, some, arith, Option-cases,
}
use context_switching.Vm.Block.{
  State, Answers, Op, construct, destroy, move_construct, move_assign, update, allocate, give,
  construct_at, destroy_at, step, assign_other, move_construct_at, move_assign_at, move_into,
  moved_from,
}
use context_switching.Vm.Block.Owner.{
  Owners, Agrees, hand_over, take_on, construct_owner, owner_step,
}
use context_switching.Vm.Block.Owner.Moves.{present, give_fresh, without, freed, moved, cleared}

step_construct :
    (x size : ℕ) (use_mmap huge : Bool) (answers : Answers) (a b : Owners) (s : State)
    → Agrees a s
    → owner_step a (construct x size use_mmap huge answers) ≡ some b
    → (t : State) × (step s (construct x size use_mmap huge answers) ≡ some t) × Agrees b t
unfolding owner_step step construct_owner construct_at
step_construct x size use_mmap huge answers a b s g e =
    elim (Option-cases (allocate answers use_mmap huge)) [
      | inl f ↦ (s, ground (arith, f, e, g.known x), ground (arith, e, f))
      | inr (p, f) ↦
          let t : State = record {
            variable =
                update s.variable x (some (record { ptr = p; size = size; is_mmap = use_mmap }));
            region = give p (record { extent = size; mapped = use_mmap }) s.region;
          } in
          let after : Owners = record {
            owner = take_on x p a.owner;
            alive = update a.alive x true;
          } in
          let absent_before : a.alive x ≡ false = ground (arith, e) in
          let same : after ≡ b = ground (arith, e, f) in
          (
            t,
            ground (arith, f, e, g.known x),
            subst (λ o. Agrees o t) same
                (give_fresh x p size use_mmap a s absent_before (ground (arith, e, f)) g),
          )
    ]

step-destroy :
    (x : ℕ) (a b : Owners) (s : State)
    → Agrees a s
    → owner_step a (destroy x) ≡ some b
    → (t : State) × (step s (destroy x) ≡ some t) × Agrees b t
unfolding owner_step step destroy_at
step-destroy x a b s g e =
    let (c, v) = present x a s g (ground (arith, e)) in
    let (d, region, f, k) = freed x c a s v g in
    (
      record { variable = update s.variable x none; region = region },
      rw (v, f) refl,
      subst (λ o. Agrees o (record { variable = update s.variable x none; region = region }))
          (ground (arith, e)) k,
    )

step_move_construct :
    (x y : ℕ) (a b : Owners) (s : State)
    → Agrees a s
    → owner_step a (move_construct x y) ≡ some b
    → (t : State) × (step s (move_construct x y) ≡ some t) × Agrees b t
unfolding owner_step step move_construct_at
step_move_construct x y a b s g e =
    let (c, v) = present y a s g (ground (arith, e)) in
    let after : Owners = record {
      owner = λ p. hand_over y (some x) (a.owner p);
      alive = update a.alive x true;
    } in
    let same : after ≡ b = ground (arith, e) in
    (
      move_into x y c s,
      ground (arith, v, e, g.known x),
      subst (λ o. Agrees o (move_into x y c s)) same (moved x y c a s v (ground (arith, e)) g),
    )

step_move_assign :
    (x y : ℕ) (a b : Owners) (s : State)
    → Agrees a s
    → owner_step a (move_assign x y) ≡ some b
    → (t : State) × (step s (move_assign x y) ≡ some t) × Agrees b t
unfolding owner_step step move_assign_at assign_other
step_move_assign x y a b s g e = elim (ℕ_discrete x y) [
  | yes i ↦
      let (c, v) = present x a s g (ground (arith, e)) in
      (s, ground (arith, i, v), subst (λ o. Agrees o s) (ground (arith, e, i)) g)
  | no n ↦
      let (c, v) = present x a s g (ground (arith, e)) in
      let (d, w) = present y a s g (ground (arith, e)) in
      let (k, region, f, h) = freed x c a s v g in
      let between : State = record { variable = update s.variable x none; region = region } in
      let after : Owners = record {
        owner = λ p. hand_over y (some x) (hand_over x none (a.owner p));
        alive = update (update a.alive x false) x true;
      } in
      let back : update (update a.alive x false) x true ≡ a.alive =
        fun_ext (λ z. ground (arith, e)) in
      let same : after ≡ b =
        ap
          (λ f. record {
            owner = λ p. hand_over y (some x) (hand_over x none (a.owner p));
            alive = f;
          })
          back
        ∙ ground (arith, e, n) in
      let t : State = record {
        variable = update (update s.variable y (some (moved_from d))) x (some d);
        region = region;
      } in
      (
        t,
        ground (arith, v, w, f, n),
        subst (λ o. Agrees o t) same
            (subst (λ u. Agrees after u) (cleared x y d s region n)
              (moved x y d (without x a) between (ground arith) (ground arith) h)),
      )
]

pub step-Agrees :
    (o : Op) (a b : Owners) (s : State)
    → Agrees a s
    → owner_step a o ≡ some b
    → (t : State) × (step s o ≡ some t) × Agrees b t
step-Agrees (construct x size use_mmap huge answers) = step_construct x size use_mmap huge answers
step-Agrees (destroy x) = step-destroy x
step-Agrees (move_construct x y) = step_move_construct x y
step-Agrees (move_assign x y) = step_move_assign x y
