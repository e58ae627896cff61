-- ===== src/Vm/Block.antt =====
-- src/vm_explorer.cpp: `MemoryBlock`, the owner of a mapping or of an allocation. The variables that
-- hold blocks are numbered, and the regions that the system has given out are a function of their
-- addresses.
pub mod Owner
pub mod Scope
use mathlib.Core.Logic.{ite}
use native.Mathlib.Decide.{ℕ_discrete}
use context_switching.Prelude.{
  ℕ, ◌-◌, ◌^◌, ◌≡◌, Bool, true, false, List, [], ◌∷◌, Option, none, some, ◌==◌, if◌then◌else◌,
  ◌>>=◌,
}

pub record MemoryBlock : Type 0 where
  pub ptr : ℕ
  pub size : ℕ
  pub is_mmap : Bool

abbrev pub nullptr : ℕ
nullptr = 0

-- `(void*) -1`
abbrev pub map_failed : ℕ
map_failed = 2 ^ 64 - 1

-- What the system has given out at an address: the length, and whether by `mmap`.
pub record Region : Type 0 where
  pub extent : ℕ
  pub mapped : Bool

pub record State : Type 0 where
  pub variable : ℕ → Option MemoryBlock
  pub region : ℕ → Option Region

abbrev pub update {ℓ} : {A : Type ℓ} → (ℕ → A) → ℕ → A → ℕ → A
update f x a y = ite (ℕ_discrete y x) a (f y)

-- What the system answers to the calls of one `allocate`: the addresses of the first `mmap` and of
-- the one without huge pages, and the pointer that `posix_memalign` stores, `none` for an error.
pub record Answers : Type 0 where
  pub first : ℕ
  pub retry : ℕ
  pub aligned : Option ℕ

map_or_throw : ℕ → Option ℕ
map_or_throw p = if p == map_failed then none else some p

-- `allocate`: the pointer; `none` is an exception.
unfoldable pub allocate : Answers → Bool → Bool → Option ℕ
unfolding map_or_throw
allocate r true true = if r.first == map_failed then map_or_throw r.retry else some r.first
allocate r true false = map_or_throw r.first
allocate r false huge = r.aligned

-- A region given out at this address; a null pointer names none.
abbrev pub give : ℕ → Region → (ℕ → Option Region) → ℕ → Option Region
give p g region = if p == nullptr then region else update region p (some g)

same_flag : Bool → Bool → Bool
same_flag true b = b
same_flag false true = false
same_flag false false = true

matching : Region → ℕ → Bool → Bool
unfolding same_flag
matching g size is_mmap = if same_flag g.mapped is_mmap then g.extent == size else false

-- `munmap(p, size)`, or `free(p)` of what is no mapping. `none` is the release of what is not there,
-- or not in the way it was given out.
pub release : MemoryBlock → (ℕ → Option Region) → Option (ℕ → Option Region)
unfolding matching
release b region = elim (region b.ptr) [
  | none ↦ none
  | some g ↦ if matching g b.size b.is_mmap then some (update region b.ptr none) else none
]

pub deallocate : MemoryBlock → (ℕ → Option Region) → Option (MemoryBlock × (ℕ → Option Region))
unfolding release
deallocate b region =
    if b.ptr == nullptr
    then some (b, region)
    else do after ← release b region; some ((record b { ptr = nullptr }), after)

-- What a program does with blocks. A constructor takes the size, `use_mmap` and `use_huge_pages`.
pub data Op : Type 0 where
  construct : ℕ → ℕ → Bool → Bool → Answers → Op
  destroy : ℕ → Op
  move_construct : ℕ → ℕ → Op  -- the new variable, and the block moved from
  move_assign : ℕ → ℕ → Op

-- `MemoryBlock x(size, use_mmap, use_huge_pages)`; after an exception there is no x.
construct_at : ℕ → ℕ → Bool → Bool → Answers → State → State
unfolding allocate
construct_at x size use_mmap huge answers s = elim (allocate answers use_mmap huge) [
  | none ↦ s
  | some p ↦ record {
    variable = update s.variable x (some (record { ptr = p; size = size; is_mmap = use_mmap }));
    region = give p (record { extent = size; mapped = use_mmap }) s.region;
  }
]

abbrev moved_from : MemoryBlock → MemoryBlock
moved_from b = record b { ptr = nullptr; size = 0 }

abbrev move_into : ℕ → ℕ → MemoryBlock → State → State
move_into x y b s = record s {
  variable = update (update s.variable y (some (moved_from b))) x (some b);
}

destroy_at : ℕ → State → Option State
unfolding deallocate
destroy_at x s = do
  b ← s.variable x
  (after, region) ← deallocate b s.region
  some (record { variable = update s.variable x none; region = region })

abbrev pub absent : ℕ → State → Bool
absent x s = elim (s.variable x) [ none ↦ true | some b ↦ false ]

move_construct_at : ℕ → ℕ → State → Option State
move_construct_at x y s = do b ← s.variable y; if absent x s then some (move_into x y b s) else none

-- The assignment past its guard.
assign_other : ℕ → ℕ → State → Option State
unfolding deallocate
assign_other x y s = do
  a ← s.variable x
  b ← s.variable y
  (after, region) ← deallocate a s.region
  some (move_into x y b (record { variable = s.variable; region = region }))

move_assign_at : ℕ → ℕ → State → Option State
unfolding assign_other
move_assign_at x y s = if x == y then (do b ← s.variable x; some s) else assign_other x y s

-- One operation; `none` is a wrong release, or an operation on a variable that is not there, or a
-- construction of one that is.
pub step : State → Op → Option State
unfolding construct_at destroy_at move_construct_at move_assign_at
step s (construct x size use_mmap huge answers) =
    if absent x s then some (construct_at x size use_mmap huge answers s) else none
step s (destroy x) = destroy_at x s
step s (move_construct x y) = move_construct_at x y s
step s (move_assign x y) = move_assign_at x y s

unfoldable pub run : State → List Op → Option State
unfolding step
run s [] = some s
run s (o ∷ os) = do t ← step s o; run t os

abbrev pub initial : State
initial = record { variable = λ _. none; region = λ _. none }
