-- ===== src/ContextSwitch/Pipes/Progress.antt =====
-- src/context_switch_cpp.cpp, `measure_with_pipes`: no deadlock where no call fails.
use context_switching.Prelude.{ℕ, ◌≤◌, ◌<◌, ◌≡◌, refl, ◌⊎◌, false, inl, inr, arith}
use native.Mathlib.Decide.{dec_lt}
use context_switching.ContextSwitch.Pipes.{
  Pipes, Parent, writing, reading, sampling, ended, thrown, Child, receiving, sending, exited,
  unread, unsent, stamp, send, receive, sample, finish, ChildMove, begin, take, take_fails, answer,
  answer_fails, leave, System, Step, parent_step, child_step, initial, Steps, here, next,
}
use context_switching.ContextSwitch.Pipes.Alternation.{sent, answered, Alternates, Reach-Alternates}

-- No call of the child has failed.
abbrev Intact : Child → Type 0
Intact (unread i) = ⊥
Intact (unsent i) = ⊥
Intact _ = Unit

ChildMove-Intact :
    {n : ℕ} {m m' : Pipes} {c c' : Child} → ChildMove false n m c m' c' → Intact c → Intact c'
ChildMove-Intact (begin l) h = tt
ChildMove-Intact (take l) h = tt
ChildMove-Intact (take_fails e) h = cc
ChildMove-Intact answer h = tt
ChildMove-Intact (answer_fails e) h = cc
ChildMove-Intact (leave l) h = tt

Reach-Intact : {n : ℕ} {s : System} → Steps false false n initial s → Intact s.child
Reach-Intact here = tt
Reach-Intact (next r (parent_step k)) = Reach-Intact r
Reach-Intact (next r (child_step k)) = ChildMove-Intact k (Reach-Intact r)

-- The child can go on unless it has ended, or waits for a byte that is not there.
child_goes_on :
    (n : ℕ) (m : Pipes) (p : Parent) (c : Child)
    → Intact c
    → ((i : ℕ) → c ≡ receiving i → 1 ≤ m.there)
    → (c ≡ exited)
      ⊎ ((t : System) × Step false false n (record { pipes = m; parent = p; child = c }) t)
child_goes_on n m p (Child.head i) h w = elim (dec_lt i n) [
  | yes l ↦ inr (_, child_step (begin l))
  | no l ↦ inr (_, child_step (leave (omega (arith, l))))
]
child_goes_on n m p (receiving i) h w = inr (_, child_step (take (w i refl)))
child_goes_on n m p (sending i) h w = inr (_, child_step answer)
child_goes_on n m p exited h w = inl refl
child_goes_on n m p (unread i) h w = absurd (h)
child_goes_on n m p (unsent i) h w = absurd (h)

-- Where the parent has sent what is not answered, a child that waits finds a byte, and has not ended.
byte_there :
    (n i : ℕ) (m : Pipes) (p : Parent) (c : Child)
    → Alternates n (record { pipes = m; parent = p; child = c })
    → answered n c < sent n p
    → c ≡ receiving i
    → 1 ≤ m.there
byte_there n i m p c a l e = grind (arith, a.there, l, e)

go_on :
    (n : ℕ) (m : Pipes) (p : Parent) (c : Child)
    → Alternates n (record { pipes = m; parent = p; child = c })
    → Intact c
    → ((p ≡ ended) × (c ≡ exited))
      ⊎ ((t : System) × Step false false n (record { pipes = m; parent = p; child = c }) t)
go_on n m (Parent.head i) c a h = elim (dec_lt i n) [
  | yes l ↦ inr (_, parent_step (stamp 0 l))
  | no l ↦ inr (_, parent_step (finish (omega (arith, l))))
]
go_on n m (writing i s) c a h = inr (_, parent_step send)
go_on n m (reading i s) c a h = elim (dec_lt 0 m.back) [
  | yes l ↦ inr (_, parent_step (receive (omega (arith, l))))
  | no l ↦
      elim (child_goes_on n m (reading i s) c h
        (λ j e. byte_there n j m (reading i s) c a (omega (arith, l, a.back)) e)) [
          | inl e ↦ absurd (grind (arith, e, l, a.back, a.parent_bound))
          | inr k ↦ inr k
        ]
]
go_on n m (sampling i s) c a h = inr (_, parent_step (sample 0))
go_on n m thrown c a h = absurd (omega (arith, a.parent_bound))
go_on n m ended c a h =
    elim (child_goes_on n m ended c h
      (λ j e. byte_there n j m ended c a (grind (arith, e, a.child_bound)) e)) [
        | inl e ↦ inl (refl, e)
        | inr k ↦ inr k
      ]

-- In every state that parent and child reach where no call of `read` or `write` fails, one of them can go
-- on, unless both have ended.
pub pipes_go_on :
    {n : ℕ} {s : System}
    → Steps false false n initial s
    → ((s.parent ≡ ended) × (s.child ≡ exited)) ⊎ ((t : System) × Step false false n s t)
pipes_go_on {n} {s} r = go_on n s.pipes s.parent s.child (Reach-Alternates r) (Reach-Intact r)
