-- ===== src/Memory/Fragmentation/Leak.antt =====
-- src/memory_allocator_benchmarker.cpp, `fragmentation_test`: what a round leaves in
-- `current_allocated`.
use context_switching.Prelude.{
  ℕ, suc, ◌+◌, ◌%◌, ◌^◌, ◌≤◌, ◌<◌, ◌≡◌, refl, List, [], ◌∷◌, some, Bool, true, false, ltb, ◌==◌,
  ◌&&◌, not, if◌then◌else◌, All, arith, Bool-cases, inl, inr,
}
use context_switching.Prelude.Words.{u64}
use context_switching.Prelude.Double.{Double}
use context_switching.Memory.Pattern.{random, Draw}
use context_switching.Memory.Pattern.Bounds.{generate_bounds, random_index}
use context_switching.Memory.Fragmentation.{
  Slot, Round, free_slot, free_even, total_hole_size, fill, free_if, free_some, release,
  fragmentation_round,
}

-- The bytes of the blocks that are still there.
abbrev pub left : List Slot → ℕ
left [] = 0
left (p ∷ rest) = (if p.ptr then p.size else 0) + left rest

-- Sizes are of type `size_t`.
abbrev pub Sized : List Slot → Type 0
Sized = All (λ p. p.size < 2 ^ 64)

-- What releasing does to the slots and to the count: the count falls by what goes.
pub record Released (before after : List Slot) (current last : ℕ) : Type 0 where
  pub balance : u64 (last + left before) ≡ u64 (current + left after)
  pub same : left before + total_hole_size before ≡ left after + total_hole_size after
  pub sized : Sized after

abbrev kept : Slot → ℕ
kept p = if p.ptr then p.size else 0

abbrev hole : Slot → ℕ
hole p = if not p.ptr && ltb 0 p.size then p.size else 0

-- The same for one slot.
record Moved (p q : Slot) (current last : ℕ) : Type 0 where
  balance : u64 (last + kept p) ≡ u64 (current + kept q)
  same : kept p + hole p ≡ kept q + hole q
  sized : q.size < 2 ^ 64

free_slot-Moved :
    (ptr : Bool) (size current : ℕ)
    → size < 2 ^ 64
    → let p : Slot = record { ptr = ptr; size = size } in
      Moved p (free_slot p current).0 current (free_slot p current).1
free_slot-Moved false size current h = record { balance = refl; same = refl; sized = h }
free_slot-Moved true size current h = record {
  balance = omega (arith, h);
  same = ground arith;
  sized = h;
}

untouched : (slots : List Slot) (current : ℕ) → Sized slots → Released slots slots current current
untouched slots current h = record { balance = refl; same = refl; sized = h }

first-Released :
    {p q : Slot} {rest rest' : List Slot} (current middle last : ℕ)
    → Moved p q current middle
    → Released rest rest' middle last
    → Released (p ∷ rest) (q ∷ rest') current last
unfolding total_hole_size
first-Released current middle last m r = record {
  balance = omega (arith, m.balance, r.balance);
  same = omega (arith, m.same, r.same);
  sized = (m.sized, r.sized);
}

-- The tail first, then the head.
last-Released :
    {p q : Slot} {rest rest' : List Slot} (current middle last : ℕ)
    → Moved p q middle last
    → Released rest rest' current middle
    → Released (p ∷ rest) (q ∷ rest') current last
unfolding total_hole_size
last-Released current middle last m r = record {
  balance = omega (arith, m.balance, r.balance);
  same = omega (arith, m.same, r.same);
  sized = (m.sized, r.sized);
}

still : (p : Slot) (current : ℕ) → p.size < 2 ^ 64 → Moved p p current current
still p current h = record { balance = refl; same = refl; sized = h }

free_if-Moved :
    (b : Bool) (p : Slot) (current : ℕ)
    → p.size < 2 ^ 64
    → Moved p (free_if b p current).0 current (free_if b p current).1
free_if-Moved true p current h = free_slot-Moved p.ptr p.size current h
free_if-Moved false p current h = still p current h

free_even-Released :
    (slots : List Slot) (current : ℕ)
    → Sized slots
    → Released slots (free_even slots current).0 current (free_even slots current).1
unfolding free_even
free_even-Released [] current h = untouched [] current h
free_even-Released (p ∷ []) current h =
    first-Released current _ _ (free_slot-Moved p.ptr p.size current h.0) (untouched [] _ tt)
free_even-Released (p ∷ q ∷ rest) current h =
    first-Released current _ _ (free_slot-Moved p.ptr p.size current h.0)
      (first-Released _ _ _ (still q _ h.1.0) (free_even-Released rest _ h.1.1))

module _ (F : Double) (exp_of_minus : F.Num → F.Num) where
  free_some-Released :
      (choices : ℕ → Draw F) (i : ℕ) (slots : List Slot) (current : ℕ)
      → Sized slots
      → (after : List Slot) × (last : ℕ) × (free_some F exp_of_minus choices i slots current
          ≡ some (after, last))
        × Released slots after current last
  unfolding free_some
  free_some-Released choices i [] current h = ([], current, refl, untouched [] current h)
  free_some-Released choices i (p ∷ rest) current h =
      let (rest', middle, e, r) = free_some-Released choices (suc i) rest current h.1 in
      let drawn = random_index F exp_of_minus 2 i (choices i) (omega arith) (omega arith) in
      let m = free_if-Moved ((choices i).first % 2 == 0) p middle h.0 in
      (_, _, rw (e, drawn) refl, last-Released current middle _ m r)

  -- The slots that a round fills, before anything is released.
  record Filled (slots : List Slot) (current last : ℕ) : Type 0 where
    balance : u64 last ≡ u64 (current + left slots)
    sized : Sized slots

  fill-Filled :
      (min_size max_size i : ℕ) (ds : List (Draw F × Bool)) (current : ℕ)
      → min_size + 10 ≤ max_size
      → max_size < 2 ^ 64
      → (slots : List Slot) × (last : ℕ) × (fill F exp_of_minus min_size max_size i ds current
          ≡ some (slots, last))
        × Filled slots current last
  unfolding fill
  fill-Filled a b i [] current p q =
      ([], current, refl, record { balance = omega arith; sized = tt })
  fill-Filled a b i ((d, true) ∷ ds) current p q =
      let (size, e, low, up) = generate_bounds F exp_of_minus random a b i d (λ x. cc) p q in
      let (rest, last, f, r) = fill-Filled a b (suc i) ds (u64 (current + size)) p q in
      (
        record { ptr = true; size = size } ∷ rest,
        last,
        rw (e, f) refl,
        record { balance = omega (arith, r.balance); sized = (omega (arith, up, q), r.sized) },
      )
  fill-Filled a b i ((d, false) ∷ ds) current p q =
      let (size, e, low, up) = generate_bounds F exp_of_minus random a b i d (λ x. cc) p q in
      let (rest, last, f, r) = fill-Filled a b (suc i) ds current p q in
      (
        record { ptr = false; size = 0 } ∷ rest,
        last,
        rw (e, f) refl,
        record { balance = omega (arith, r.balance); sized = (omega arith, r.sized) },
      )

  release-Released :
      (round : ℕ) (r : Round F) (slots : List Slot) (current : ℕ)
      → Sized slots
      → (after : List Slot) × (last : ℕ) × (release F exp_of_minus round r (slots, current)
          ≡ some (after, last))
        × Released slots after current last
  release-Released round r slots current h = elim (Bool-cases (round % 2 == 0)) [
    | inl e ↦ (
      (free_even slots current).0,
      (free_even slots current).1,
      rw e refl,
      free_even-Released slots current h,
    )
    | inr e ↦
        let (after, last, f, k) = free_some-Released r.choices 0 slots current h in
        (after, last, rw e f, k)
  ]

  -- For sizes of type size_t at least ten apart a round of the test divides by nothing that is 0. Although all its
  -- blocks are destroyed at its end, `current_allocated` has grown, modulo 2^64, by the size of the
  -- blocks that it has not released itself.
  pub fragmentation_round_leaks :
      (min_size max_size round : ℕ) (r : Round F) (current : ℕ)
      → min_size + 10 ≤ max_size
      → max_size < 2 ^ 64
      → (slots : List Slot) × (last : ℕ) × (fragmentation_round F exp_of_minus min_size max_size
            round r current
          ≡ some (slots, last))
        × (u64 last ≡ u64 (current + left slots))
  unfolding fragmentation_round
  fragmentation_round_leaks a b round r current p q =
      let (slots, middle, e, filled) = fill-Filled a b 0 r.allocations current p q in
      let (after, last, f, k) = release-Released round r slots middle filled.sized in
      (after, last, rw e f, omega (arith, filled.balance, k.balance))
