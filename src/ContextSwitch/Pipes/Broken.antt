-- ===== src/ContextSwitch/Pipes/Broken.antt =====
-- src/context_switch_cpp.cpp, `measure_with_pipes`: a child that leaves its loop since a call failed.
use context_switching.Prelude.{ℕ, ◌≤◌, ◌≡◌, ◌≢◌, ◌⊎◌, Bool, false, arith, length}
use context_switching.ContextSwitch.Pipes.{
  Pipes, ended, thrown, Child, unread, unsent, ChildMove, begin, take, take_fails, answer,
  answer_fails, leave, System, parent_step, child_step, initial, Steps, here, next,
}
use context_switching.ContextSwitch.Pipes.Alternation.{Reach-Alternates, Steps-Alternates}

-- The child has left its loop in iteration `i`, since a call failed.
abbrev pub LeftIn : ℕ → Child → Type 0
LeftIn i c = (c ≡ unread i) ⊎ (c ≡ unsent i)

ChildMove-LeftIn :
    {fails : Bool} {n i : ℕ} {m m' : Pipes} {c c' : Child}
    → ChildMove fails n m c m' c'
    → LeftIn i c
    → LeftIn i c'
ChildMove-LeftIn (begin l) h = absurd (ground (arith, h))
ChildMove-LeftIn (take l) h = absurd (ground (arith, h))
ChildMove-LeftIn (take_fails e) h = absurd (ground (arith, h))
ChildMove-LeftIn answer h = absurd (ground (arith, h))
ChildMove-LeftIn (answer_fails e) h = absurd (ground (arith, h))
ChildMove-LeftIn (leave l) h = absurd (ground (arith, h))

Steps-LeftIn :
    {parent_fails child_fails : Bool} {n i : ℕ} {s t : System}
    → Steps parent_fails child_fails n s t
    → LeftIn i s.child
    → LeftIn i t.child
Steps-LeftIn here h = h
Steps-LeftIn (next r (parent_step k)) h = Steps-LeftIn r h
Steps-LeftIn (next r (child_step k)) h = ChildMove-LeftIn k (Steps-LeftIn r h)

-- Where the child has left its loop in iteration `i` of n, since its `read` or `write` failed, and no call
-- of the parent fails: `parent_process` neither ends nor throws in any state that can follow, and holds
-- at most `i` times.
pub broken_child_hangs :
    {child_fails : Bool} {n : ℕ} {s t : System} (i : ℕ)
    → Steps false child_fails n initial s
    → LeftIn i s.child
    → Steps false child_fails n s t
    → (t.parent ≢ ended) × (t.parent ≢ thrown) × (length t.pipes.times ≤ i)
broken_child_hangs {n = n} {t = t} i r h k =
    let a = Steps-Alternates k (Reach-Alternates r) in
    let g = Steps-LeftIn k h in
    (
      (λ e. ground (arith, e, a.back, a.child_bound, g)),
      (λ e. ground (arith, e, a.parent_bound)),
      ground (arith, a.back, a.times, g),
    )
