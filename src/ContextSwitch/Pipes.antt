-- ===== src/ContextSwitch/Pipes.antt =====
-- src/context_switch_cpp.cpp: `measure_with_pipes`. A process hands a byte to its child through one
-- pipe and gets it back through another; each call of `read` and `write` is one step, and may fail where
-- a flag says so. Both processes keep all ends of both pipes open, so that no `read` meets the end of
-- its pipe. Readings of the clock are integers, and differences of them are signed.
pub mod Alternation
pub mod Progress
pub mod Broken
mod Tests
use context_switching.Prelude.{ℕ, suc, ◌-◌, ◌≤◌, ◌<◌, ◌≡◌, Bool, true, List, [], ◌∷◌, ◌++◌}
use context_switching.Prelude.Int.{ℤ, sub_ℕ}

pub record Pipes : Type 0 where
  pub there : ℕ  -- bytes in `pipe1`
  pub back : ℕ  -- bytes in `pipe2`
  pub times : List ℤ

-- Where `parent_process` stands, in iteration `i`.
pub data Parent : Type 0 where
  head : (i : ℕ) → Parent
  writing : (i started : ℕ) → Parent
  reading : (i started : ℕ) → Parent
  sampling : (i started : ℕ) → Parent
  ended : Parent
  thrown : Parent  -- "Parent write failed" or "Parent read failed"

-- Where `child_process` stands, in iteration `i`.
pub data Child : Type 0 where
  head : (i : ℕ) → Child
  receiving : (i : ℕ) → Child
  sending : (i : ℕ) → Child
  exited : Child
  unread : (i : ℕ) → Child  -- left by `break`, since its `read` failed
  unsent : (i : ℕ) → Child  -- left by `break`, since its `write` failed

-- The steps of the parent. A `read` waits for a byte. `fails` says whether a call may fail.
pub data ParentMove (fails : Bool) (n : ℕ) (m : Pipes) : Parent → Pipes → Parent → Type 0 where
  stamp : {i : ℕ} (now : ℕ) → i < n → ParentMove fails n m (Parent.head i) m (writing i now)
  send :
      {i s : ℕ}
      → ParentMove fails n m (writing i s) (record m { there = suc m.there }) (reading i s)
  send_fails : {i s : ℕ} → fails ≡ true → ParentMove fails n m (writing i s) m thrown
  receive :
      {i s : ℕ}
      → 1 ≤ m.back
      → ParentMove fails n m (reading i s) (record m { back = m.back - 1 }) (sampling i s)
  receive_fails : {i s : ℕ} → fails ≡ true → ParentMove fails n m (reading i s) m thrown
  sample :
      {i s : ℕ} (now : ℕ)
      → ParentMove fails n m
          (sampling i s)
          (record m { times = m.times ++ sub_ℕ now s ∷ [] })
          (Parent.head (suc i))
  finish : {i : ℕ} → n ≤ i → ParentMove fails n m (Parent.head i) m ended

pub data ChildMove (fails : Bool) (n : ℕ) (m : Pipes) : Child → Pipes → Child → Type 0 where
  begin : {i : ℕ} → i < n → ChildMove fails n m (Child.head i) m (receiving i)
  take :
      {i : ℕ}
      → 1 ≤ m.there
      → ChildMove fails n m (receiving i) (record m { there = m.there - 1 }) (sending i)
  take_fails : {i : ℕ} → fails ≡ true → ChildMove fails n m (receiving i) m (unread i)
  answer :
      {i : ℕ}
      → ChildMove fails n m (sending i) (record m { back = suc m.back }) (Child.head (suc i))
  answer_fails : {i : ℕ} → fails ≡ true → ChildMove fails n m (sending i) m (unsent i)
  leave : {i : ℕ} → n ≤ i → ChildMove fails n m (Child.head i) m exited

pub record System : Type 0 where
  pub pipes : Pipes
  pub parent : Parent
  pub child : Child

pub data Step (parent_fails child_fails : Bool) (n : ℕ) (s : System) : System → Type 0 where
  parent_step :
      {m : Pipes} {p : Parent}
      → ParentMove parent_fails n s.pipes s.parent m p
      → Step parent_fails child_fails n s (record s { pipes = m; parent = p })
  child_step :
      {m : Pipes} {c : Child}
      → ChildMove child_fails n s.pipes s.child m c
      → Step parent_fails child_fails n s (record s { pipes = m; child = c })

-- After `fork`.
abbrev pub initial : System
initial = record {
  pipes = record { there = 0; back = 0; times = [] };
  parent = Parent.head 0;
  child = Child.head 0;
}

pub data Steps (parent_fails child_fails : Bool) (n : ℕ) (s : System) : System → Type 0 where
  here : Steps parent_fails child_fails n s s
  next :
      {t u : System}
      → Steps parent_fails child_fails n s t
      → Step parent_fails child_fails n t u
      → Steps parent_fails child_fails n s u
