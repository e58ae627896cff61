-- ===== src/Vm/Block/Owner/Moves.antt =====
-- src/vm_explorer.cpp, `MemoryBlock`: the owners, when a block is created, released or moved from.
use mathlib.Core.Path.{fun_ext}
use native.Mathlib.Decide.{ℕ_discrete}
use context_switching.Prelude.{
  ℕ, ◌≡◌, ◌≢◌, ◌⊎◌, ap, refl, inl, inr, Bool, true, false, Option, none, some, arith, Option-cases,
}
use context_switching.Vm.Block.{
  MemoryBlock, Region, State, update, nullptr, give, release, deallocate, matching, same_flag,
  move_into,
}
use context_switching.Vm.Block.Owner.{Owners, Agrees, hand_over, take_on}

pub present :
    (x : ℕ) (a : Owners) (s : State)
    → Agrees a s
    → a.alive x ≡ true
    → (b : MemoryBlock) × (s.variable x ≡ some b)
present x a s g e = elim (Option-cases (s.variable x)) [
  | inl n ↦ absurd (ground (arith, g.known x, e, n))
  | inr (b, f) ↦ (b, f)
]

pub give_fresh :
    (x p : ℕ) (size : ℕ) (use_mmap : Bool) (a : Owners) (s : State)
    → a.alive x ≡ false
    → a.owner p ≡ none
    → Agrees a s
    → Agrees
        (record { owner = take_on x p a.owner; alive = update a.alive x true })
        (record {
          variable =
              update s.variable x (some (record { ptr = p; size = size; is_mmap = use_mmap }));
          region = give p (record { extent = size; mapped = use_mmap }) s.region;
        })
give_fresh x p size use_mmap a s e f g = record {
  known = λ y. ground (arith, g.known y);
  holds = λ y b h n. ground (arith, g.holds y b, g.held);
  held = λ q y h. elim (ℕ_discrete q p) [
    | yes i ↦ elim (ℕ_discrete p nullptr) [
      | yes z ↦ absurd (ground (arith, h, f, i, z))
      | no nz ↦ (
        record { ptr = p; size = size; is_mmap = use_mmap },
        ground (arith, h, i),
        ground (arith, i),
        ground (arith, i),
      )
    ]
    | no n ↦
        let (b, v, k, z) = g.held q y (ground (arith, h)) in (b, ground (arith, g.known x), k, z)
  ];
  unowned = λ q h. ground (arith, g.unowned q);
}

-- What x hands over to nobody was free before, or was x's.
pub released : (x : ℕ) (o : Option ℕ) → hand_over x none o ≡ none → (o ≡ none) ⊎ (o ≡ some x)
released x none h = inl refl
released x (some z) h = ground arith

abbrev pub without : ℕ → Owners → Owners
without x a = record { owner = λ p. hand_over x none (a.owner p); alive = update a.alive x false }

pub freed :
    (x : ℕ) (b : MemoryBlock) (a : Owners) (s : State)
    → s.variable x ≡ some b
    → Agrees a s
    → (c : MemoryBlock) × (region : ℕ → Option Region) × (deallocate b s.region ≡ some (c, region))
      × Agrees (without x a) (record { variable = update s.variable x none; region = region })
unfolding deallocate release matching same_flag
freed x b a s v g = elim (ℕ_discrete b.ptr nullptr) [
  | yes z ↦ (
    b,
    s.region,
    ground arith,
    record {
      known = λ y. ground (arith, g.known y);
      holds = λ y c h n. ground (arith, g.holds y c);
      held = λ q y h.
          let (c, w, k, m) = g.held q y (ground (arith, h)) in (c, ground (arith, h), k, m);
      unowned = λ q h. elim (released x (a.owner q) h) [
        | inl f ↦ g.unowned q f
        | inr f ↦ let (c, w, k, m) = g.held q x f in absurd (ground (arith, v, w, k, m, z))
      ];
    },
  )
  | no z ↦ (
    record b { ptr = nullptr },
    update s.region b.ptr none,
    ground (arith, g.holds x b v z),
    record {
      known = λ y. ground (arith, g.known y);
      holds = λ y c h n. ground (arith, g.holds y c, g.holds x b v z);
      held = λ q y h.
          let (c, w, k, m) = g.held q y (ground (arith, h)) in (c, ground (arith, h), k, m);
      unowned = λ q h. elim (released x (a.owner q) h) [
        | inl f ↦ ground (arith, g.unowned q f)
        | inr f ↦ let (c, w, k, m) = g.held q x f in ground (arith, v, w, k, m, z)
      ];
    },
  )
]

pub moved :
    (x y : ℕ) (b : MemoryBlock) (a : Owners) (s : State)
    → s.variable y ≡ some b
    → a.alive x ≡ false
    → Agrees a s
    → Agrees
        (record { owner = λ p. hand_over y (some x) (a.owner p); alive = update a.alive x true })
        (move_into x y b s)
moved x y b a s v e g = record {
  known = λ z. ground (arith, g.known z);
  holds = λ z c h n. ground (arith, g.holds y b, g.holds z c, g.known x);
  held = λ q z h. elim (Option-cases (a.owner q)) [
    | inl f ↦ absurd (ground (arith, h, f))
    | inr (w, f) ↦
        let (c, u, k, m) = g.held q w f in (c, ground (arith, h, f, u, v, g.known x), k, m)
  ];
  unowned = λ q h. ground (arith, g.unowned q);
}

-- A variable that is assigned to need not be cleared before.
pub cleared :
    (x y : ℕ) (b : MemoryBlock) (s : State) (region : ℕ → Option Region)
    → x ≢ y
    → move_into x y b (record { variable = update s.variable x none; region = region })
      ≡ move_into x y b (record { variable = s.variable; region = region })
cleared x y b s region n =
    ap (λ v. record { variable = v; region = region }) (fun_ext (λ z. ground arith))
