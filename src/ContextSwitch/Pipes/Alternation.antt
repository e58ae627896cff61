-- ===== src/ContextSwitch/Pipes/Alternation.antt =====
-- src/context_switch_cpp.cpp, `measure_with_pipes`: parent and child take turns, as long as no call of the parent fails.
use context_switching.Prelude.{
  ℕ, suc, ◌+◌, ◌≤◌, ◌≡◌, refl, Bool, false, [], ◌∷◌, arith, length, length-append,
}
use context_switching.Prelude.Int.{sub_ℕ}
use context_switching.ContextSwitch.Pipes.{
  Pipes, Parent, writing, reading, sampling, ended, thrown, Child, receiving, sending, exited,
  unread, unsent, ParentMove, stamp, send, send_fails, receive, receive_fails, sample, finish,
  ChildMove, begin, take, take_fails, answer, answer_fails, leave, System, Step, parent_step,
  child_step, initial, Steps, here, next,
}

-- The iterations that the parent has sent for, got back and measured, the last as told by its times.
abbrev pub sent : ℕ → Parent → ℕ
sent n (Parent.head i) = i
sent n (writing i s) = i
sent n (reading i s) = suc i
sent n (sampling i s) = suc i
sent n ended = n
sent n thrown = 0

abbrev pub received : ℕ → Parent → ℕ
received n (Parent.head i) = i
received n (writing i s) = i
received n (reading i s) = i
received n (sampling i s) = suc i
received n ended = n
received n thrown = 0

abbrev pub measured : ℕ → Parent → ℕ
measured n (Parent.head i) = i
measured n (writing i s) = i
measured n (reading i s) = i
measured n (sampling i s) = i
measured n ended = n
measured n thrown = 0

abbrev pub taken : ℕ → Child → ℕ
taken n (Child.head i) = i
taken n (receiving i) = i
taken n (sending i) = suc i
taken n exited = n
taken n (unread i) = i
taken n (unsent i) = suc i

abbrev pub answered : ℕ → Child → ℕ
answered n (Child.head i) = i
answered n (receiving i) = i
answered n (sending i) = i
answered n exited = n
answered n (unread i) = i
answered n (unsent i) = i

-- One more than the iteration that a process is in, or the iterations that it has left behind. A parent
-- that has thrown has no room.
abbrev pub parent_room : ℕ → Parent → ℕ
parent_room n (Parent.head i) = i
parent_room n (writing i s) = suc i
parent_room n (reading i s) = suc i
parent_room n (sampling i s) = suc i
parent_room n ended = n
parent_room n thrown = suc n

abbrev pub child_room : ℕ → Child → ℕ
child_room n (Child.head i) = i
child_room n (receiving i) = suc i
child_room n (sending i) = suc i
child_room n exited = n
child_room n (unread i) = suc i
child_room n (unsent i) = suc i

-- Bytes are neither lost nor made, and nobody goes beyond n iterations.
pub record Alternates (n : ℕ) (s : System) : Type 0 where
  pub there : taken n s.child + s.pipes.there ≡ sent n s.parent
  pub back : received n s.parent + s.pipes.back ≡ answered n s.child
  pub times : length s.pipes.times ≡ measured n s.parent
  pub parent_bound : parent_room n s.parent ≤ n
  pub child_bound : child_room n s.child ≤ n

ParentMove-Alternates :
    {n : ℕ} {m m' : Pipes} {p p' : Parent} (c : Child)
    → ParentMove false n m p m' p'
    → Alternates n (record { pipes = m; parent = p; child = c })
    → Alternates n (record { pipes = m'; parent = p'; child = c })
ParentMove-Alternates c (stamp now l) a = record {
  there = a.there;
  back = a.back;
  times = a.times;
  parent_bound = omega (arith, l);
  child_bound = a.child_bound;
}
ParentMove-Alternates c send a = record {
  there = omega (arith, a.there);
  back = a.back;
  times = a.times;
  parent_bound = a.parent_bound;
  child_bound = a.child_bound;
}
ParentMove-Alternates c (send_fails e) a = cc
ParentMove-Alternates c (receive_fails e) a = cc
ParentMove-Alternates c (receive l) a = record {
  there = a.there;
  back = omega (arith, a.back, l);
  times = a.times;
  parent_bound = a.parent_bound;
  child_bound = a.child_bound;
}
ParentMove-Alternates {m = m} c (sample {s = s} now) a = record {
  there = a.there;
  back = a.back;
  times = omega (arith, a.times, length-append m.times (sub_ℕ now s ∷ []));
  parent_bound = a.parent_bound;
  child_bound = a.child_bound;
}
ParentMove-Alternates c (finish l) a = record {
  there = omega (arith, a.there, a.parent_bound, l);
  back = omega (arith, a.back, a.parent_bound, l);
  times = omega (arith, a.times, a.parent_bound, l);
  parent_bound = omega arith;
  child_bound = a.child_bound;
}

ChildMove-Alternates :
    {fails : Bool} {n : ℕ} {m m' : Pipes} {c c' : Child} (p : Parent)
    → ChildMove fails n m c m' c'
    → Alternates n (record { pipes = m; parent = p; child = c })
    → Alternates n (record { pipes = m'; parent = p; child = c' })
ChildMove-Alternates p (begin l) a = record {
  there = a.there;
  back = a.back;
  times = a.times;
  parent_bound = a.parent_bound;
  child_bound = omega (arith, l);
}
ChildMove-Alternates p (take l) a = record {
  there = omega (arith, a.there, l);
  back = a.back;
  times = a.times;
  parent_bound = a.parent_bound;
  child_bound = a.child_bound;
}
ChildMove-Alternates p (take_fails e) a = record {
  there = a.there;
  back = a.back;
  times = a.times;
  parent_bound = a.parent_bound;
  child_bound = a.child_bound;
}
ChildMove-Alternates p (answer_fails e) a = record {
  there = a.there;
  back = a.back;
  times = a.times;
  parent_bound = a.parent_bound;
  child_bound = a.child_bound;
}
ChildMove-Alternates p answer a = record {
  there = a.there;
  back = omega (arith, a.back);
  times = a.times;
  parent_bound = a.parent_bound;
  child_bound = a.child_bound;
}
ChildMove-Alternates p (leave l) a = record {
  there = omega (arith, a.there, a.child_bound, l);
  back = omega (arith, a.back, a.child_bound, l);
  times = a.times;
  parent_bound = a.parent_bound;
  child_bound = omega arith;
}

initial-Alternates : (n : ℕ) → Alternates n initial
initial-Alternates n = record {
  there = refl;
  back = refl;
  times = refl;
  parent_bound = omega arith;
  child_bound = omega arith;
}

Step-Alternates :
    {child_fails : Bool} {n : ℕ} {s t : System}
    → Step false child_fails n s t
    → Alternates n s
    → Alternates n t
Step-Alternates {s = s} (parent_step k) a = ParentMove-Alternates s.child k a
Step-Alternates {s = s} (child_step k) a = ChildMove-Alternates s.parent k a

pub Steps-Alternates :
    {child_fails : Bool} {n : ℕ} {s t : System}
    → Steps false child_fails n s t
    → Alternates n s
    → Alternates n t
Steps-Alternates here a = a
Steps-Alternates (next r k) a = Step-Alternates k (Steps-Alternates r a)

pub Reach-Alternates :
    {child_fails : Bool} {n : ℕ} {s : System} → Steps false child_fails n initial s → Alternates n s
Reach-Alternates {n = n} r = Steps-Alternates r (initial-Alternates n)

sent-bound : (n : ℕ) (p : Parent) → sent n p ≤ received n p + 1
sent-bound n p = ground (arith, p)

answered-bound : (n : ℕ) (c : Child) → answered n c ≤ taken n c
answered-bound n c = ground (arith, c)

one_byte-of : (n : ℕ) (s : System) → Alternates n s → s.pipes.there + s.pipes.back ≤ 1
one_byte-of n s a = omega (arith, a.there, a.back, sent-bound n s.parent, answered-bound n s.child)

-- In every state that parent and child reach where no call of the parent fails there is at most one byte in
-- both pipes together, and the parent has one time for each iteration that it has completed: n when it
-- has ended.
one_byte :
    {child_fails : Bool} {n : ℕ} {s : System}
    → Steps false child_fails n initial s
    → (s.pipes.there + s.pipes.back ≤ 1) × (length s.pipes.times ≡ measured n s.parent)
one_byte {n = n} {s} r = let a = Reach-Alternates r in (one_byte-of n s a, a.times)
