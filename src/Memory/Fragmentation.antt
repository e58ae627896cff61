-- ===== src/Memory/Fragmentation.antt =====
-- src/memory_allocator_benchmarker.cpp: `fragmentation_test`. The model keeps what it does to
-- `current_allocated`, and the holes that it prints. A round has ten thousand slots.
pub mod Leak
use context_switching.Prelude.{
  ℕ, suc, ◌+◌, ◌*◌, ◌%◌, List, [], ◌∷◌, ◌++◌, Option, none, some, Bool, true, false, ltb, ◌==◌,
  ◌&&◌, not, if◌then◌else◌, ◌>>=◌,
}
use context_switching.Prelude.Words.{u64}
use context_switching.Prelude.Double.{Double}
use context_switching.Memory.Pattern.{AllocationPattern, random, Draw, minus, generate}

-- An entry of `ptrs`, null or not, with that of `sizes`.
pub record Slot : Type 0 where
  pub ptr : Bool
  pub size : ℕ

-- What the machine does in one round: for each slot the draw and whether the allocation succeeds, and
-- the draws of the release.
pub record Round (F : Double) : Type 0 where
  pub allocations : List (Draw F × Bool)
  pub choices : ℕ → Draw F

abbrev pub free_slot : Slot → ℕ → Slot × ℕ
free_slot p current =
    if p.ptr then (record p { ptr = false }, minus current p.size) else (p, current)

-- Each second slot from the first on.
pub free_even : List Slot → ℕ → List Slot × ℕ
free_even [] current = ([], current)
free_even (p ∷ []) current = let (q, after) = free_slot p current in (q ∷ [], after)
free_even (p ∷ q ∷ rest) current =
    let (p', after) = free_slot p current in
    let (rest', last) = free_even rest after in (p' ∷ q ∷ rest', last)

pub holes : List Slot → ℕ
holes [] = 0
holes (p ∷ rest) = (if not p.ptr && ltb 0 p.size then 1 else 0) + holes rest

pub total_hole_size : List Slot → ℕ
total_hole_size [] = 0
total_hole_size (p ∷ rest) =
    (if not p.ptr && ltb 0 p.size then p.size else 0) + total_hole_size rest

abbrev pub free_if : Bool → Slot → ℕ → Slot × ℕ
free_if true p current = free_slot p current
free_if false p current = (p, current)

module _ (F : Double) (exp_of_minus : F.Num → F.Num) where
  open F use {Num, of_nat, sub, mul, div}

  -- `calculate_fragmentation`, given the resident size in kilobytes.
  unfoldable pub calculate_fragmentation : ℕ → ℕ → Num
  calculate_fragmentation rss heap_used =
      if heap_used == 0
      then of_nat 0
      else mul (sub (div (of_nat (u64 (rss * 1024))) (of_nat heap_used)) (of_nat 1)) (of_nat 100)

  -- The slots in order, and the count so far.
  pub fill : ℕ → ℕ → ℕ → List (Draw F × Bool) → ℕ → Option (List Slot × ℕ)
  fill min_size max_size i [] current = some ([], current)
  fill min_size max_size i ((d, true) ∷ ds) current = do
    size ← generate F exp_of_minus random min_size max_size i d
    (rest, last) ← fill min_size max_size (suc i) ds (u64 (current + size))
    some (record { ptr = true; size = size } ∷ rest, last)
  fill min_size max_size i ((d, false) ∷ ds) current = do
    size ← generate F exp_of_minus random min_size max_size i d
    (rest, last) ← fill min_size max_size (suc i) ds current
    some (record { ptr = false; size = 0 } ∷ rest, last)

  -- From the last slot to the first.
  pub free_some : (ℕ → Draw F) → ℕ → List Slot → ℕ → Option (List Slot × ℕ)
  free_some choices i [] current = some ([], current)
  free_some choices i (p ∷ rest) current = do
    (rest', after) ← free_some choices (suc i) rest current
    choice ← generate F exp_of_minus random 0 2 i (choices i)
    let freed = free_if (choice == 0) p after in some (freed.0 ∷ rest', freed.1)

  abbrev pub release : ℕ → Round F → List Slot × ℕ → Option (List Slot × ℕ)
  release round r (slots, current) =
      if round % 2 == 0 then some (free_even slots current) else free_some r.choices 0 slots current

  -- One round: the slots at its end, where all blocks are destroyed, and `current_allocated`.
  unfoldable pub fragmentation_round : ℕ → ℕ → ℕ → Round F → ℕ → Option (List Slot × ℕ)
  fragmentation_round min_size max_size round r current = do
    filled ← fill min_size max_size 0 r.allocations current
    release round r filled
