-- ===== src/ContextSwitch/Pipes/Tests.antt =====
-- Concrete runs of parent and child over two pipes.
use context_switching.Prelude.{◌≡◌, ◌≢◌, ◌≤◌, ◌⊎◌, inl, refl, true, false, [], arith, length}
use context_switching.ContextSwitch.Pipes.{
  Parent, reading, ended, thrown, Child, exited, unread, stamp, send, begin, take, take_fails,
  answer, System, Step, parent_step, child_step, initial, Steps, here, next,
}
use context_switching.ContextSwitch.Pipes.Progress.{pipes_go_on}
use context_switching.ContextSwitch.Pipes.Broken.{broken_child_hangs}

-- The answer of the first of two iterations is on its way.
abbrev answered : System
answered = record {
  pipes = record { there = 0; back = 1; times = [] };
  parent = reading 0 5;
  child = Child.head 1;
}

answered_reached : Steps false false 2 initial answered
answered_reached =
    next
      (next
        (next
          (next (next here (parent_step (stamp 5 (omega arith))))
            (child_step (begin (omega arith))))
          (parent_step send))
        (child_step (take (omega arith))))
      (child_step answer)

pipes_go_on_example :
    ((answered.parent ≡ ended) × (answered.child ≡ exited))
    ⊎ ((t : System) × Step false false 2 answered t)
pipes_go_on_example = pipes_go_on answered_reached

-- The child has left its loop before the first byte came.
abbrev left : System
left = record {
  pipes = record { there = 0; back = 0; times = [] };
  parent = Parent.head 0;
  child = unread 0;
}

left_reached : Steps false true 2 initial left
left_reached = next (next here (child_step (begin (omega arith)))) (child_step (take_fails refl))

-- The parent waits for the answer.
abbrev unanswered : System
unanswered = record left {
  pipes = record { there = 1; back = 0; times = [] };
  parent = reading 0 7;
}

left_on : Steps false true 2 left unanswered
left_on = next (next here (parent_step (stamp 7 (omega arith)))) (parent_step send)

broken_child_hangs_example :
    (unanswered.parent ≢ ended) × (unanswered.parent ≢ thrown) × (length unanswered.pipes.times ≤ 0)
broken_child_hangs_example = broken_child_hangs 0 left_reached (inl refl) left_on
