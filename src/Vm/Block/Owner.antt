-- ===== src/Vm/Block/Owner.antt =====
-- src/vm_explorer.cpp, `MemoryBlock`: what it promises, as a map from addresses to their owners.
pub mod Moves
pub mod Steps
pub mod Refines
use native.Mathlib.Decide.{ℕ_discrete}
use context_switching.Prelude.{
  ℕ, ◌≡◌, ◌≢◌, Bool, true, false, not, List, [], ◌∷◌, Option, none, some, ◌==◌, if◌then◌else◌,
  ◌>>=◌,
}
use context_switching.Vm.Block.{
  MemoryBlock, Region, State, Answers, Op, construct, destroy, move_construct, move_assign, update,
  nullptr, allocate, absent,
}

-- Each address has at most one owner, and nothing says how blocks are represented.
pub record Owners : Type 0 where
  pub owner : ℕ → Option ℕ
  pub alive : ℕ → Bool

-- All that y owns goes to x.
abbrev pub hand_over : ℕ → Option ℕ → Option ℕ → Option ℕ
hand_over y to none = none
hand_over y to (some z) = if z == y then to else some z

abbrev pub take_on : ℕ → ℕ → (ℕ → Option ℕ) → ℕ → Option ℕ
take_on x p owner = if p == nullptr then owner else update owner p (some x)

abbrev pub is_free : Option ℕ → Bool
is_free none = true
is_free (some x) = false

-- A constructor that throws changes nothing. `none` is the address of a region in use, which no
-- system gives out.
construct_owner : ℕ → Option ℕ → Owners → Option Owners
construct_owner x none a = some a
construct_owner x (some p) a =
    if is_free (a.owner p)
    then some (record { owner = take_on x p a.owner; alive = update a.alive x true })
    else none

pub owner_step : Owners → Op → Option Owners
unfolding construct_owner
owner_step a (construct x size use_mmap huge answers) =
    if a.alive x then none else construct_owner x (allocate answers use_mmap huge) a
owner_step a (destroy x) =
    if a.alive x
    then some (record { owner = λ p. hand_over x none (a.owner p); alive = update a.alive x false })
    else none
owner_step a (move_construct x y) =
    if a.alive y
    then if a.alive x
      then none
      else some
          (record { owner = λ p. hand_over y (some x) (a.owner p); alive = update a.alive x true })
    else none
owner_step a (move_assign x y) =
    if a.alive x
    then if a.alive y
      then if x == y
        then some a
        else some (record a { owner = λ p. hand_over y (some x) (hand_over x none (a.owner p)) })
      else none
    else none

unfoldable pub owner_run : Owners → List Op → Option Owners
unfolding owner_step
owner_run a [] = some a
owner_run a (o ∷ os) = do b ← owner_step a o; owner_run b os

abbrev pub no_owners : Owners
no_owners = record { owner = λ _. none; alive = λ _. false }

-- The owners agree with the blocks and with what the system has given out: what an existing block
-- points to is its own and stands as the block says, and what has no owner is not given out.
pub record Agrees (a : Owners) (s : State) : Type 0 where
  pub known : (x : ℕ) → a.alive x ≡ not (absent x s)
  pub holds :
      (x : ℕ) (b : MemoryBlock)
      → s.variable x ≡ some b
      → b.ptr ≢ nullptr
      → (a.owner b.ptr ≡ some x)
        × (s.region b.ptr ≡ some (record { extent = b.size; mapped = b.is_mmap }))
  pub held :
      (p x : ℕ)
      → a.owner p ≡ some x
      → (b : MemoryBlock) × (s.variable x ≡ some b) × (b.ptr ≡ p) × (p ≢ nullptr)
  pub unowned : (p : ℕ) → a.owner p ≡ none → s.region p ≡ none
