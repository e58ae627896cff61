-- ===== src/ContextSwitch/PingPong/Progress.antt =====
-- src/context_switch_cpp.cpp, `measure_with_threads`: the work that is left, and that it gets done.
use context_switching.Prelude.{
  ℕ, zero, suc, ◌+◌, ◌-◌, ◌*◌, ◌≤◌, ◌<◌, ◌≡◌, refl, ◌⊎◌, inl, inr, Bool, false, arith, ltb, ltb→lt,
  ◌==◌, if◌then◌else◌, Bool-cases,
}
use context_switching.ContextSwitch.PingPong.{
  Shared, Caller, head, stamped, waiting, joining, Peer, enter, spinning, checking, awake, stamping,
  handing, exited, CallerMove, stamp, give, wait, sample, finish, PeerMove, begin, leave, miss, hit,
  again, stop, quit, go, stamp_back, hand, System, Step, call, answer,
}
use context_switching.ContextSwitch.PingPong.Invariant.{Phase, Rests, Owes, Step-Phase}

abbrev pub caller_work : ℕ → Caller → ℕ
caller_work n (head i) = 4 * (n - i) + 1
caller_work n (stamped i) = 4 * (n - i)
caller_work n (waiting i) = 4 * (n - i) - 2
caller_work n joining = 0

-- A peer that has seen the turn elsewhere has one more test to make once the turn is its own.
abbrev pub peer_work : ℕ → ℕ → Peer → ℕ
peer_work n turn (enter i) = 5 * (n - i) + 1
peer_work n turn (spinning i) = 5 * (n - i)
peer_work n turn (checking i) = if turn == 1 then 5 * (n - i) + 1 else 5 * (n - i)
peer_work n turn (awake i) = 5 * (n - i) - 1
peer_work n turn (stamping i) = 5 * (n - i) - 2
peer_work n turn (handing i) = 5 * (n - i) - 3
peer_work n turn exited = 0

abbrev pub work : ℕ → System → ℕ
work n s = caller_work n s.caller + peer_work n s.mem.turn s.peer

-- A step of a waiting loop: nothing changes but the place in that loop.
abbrev pub Spins : ℕ → System → System → Type 0
Spins n s t = (t.mem ≡ s.mem) × (work n t ≡ work n s)

abbrev pub Advances : ℕ → System → System → Type 0
Advances n s t = (work n t < work n s) ⊎ Spins n s t

-- A change of the turn at the peer's first test costs less than the caller's step.
turn-work : (n i t u : ℕ) (p : Peer) → Rests n i p → peer_work n t p ≤ peer_work n u p + 1
turn-work n i t u (checking j) r = ground arith
turn-work n i t u p r = omega arith

abbrev pub at : Shared → Caller → Peer → System
at m c p = record { mem = m; caller = c; peer = p }

pub call-Advances :
    {steady : Bool} {n : ℕ} {m m' : Shared} {c c' : Caller} (p : Peer)
    → CallerMove steady n m c m' c'
    → Phase n m c p
    → Advances n (at m c p) (at m' c' p)
call-Advances p (stamp t l k) v = inl (omega arith)
call-Advances {n} {m} p (give {i}) v = inl (omega (arith, turn-work n i 1 m.turn p v.4))
call-Advances p (wait h) v = inr (refl, refl)
call-Advances p (sample h) v = inl (omega arith)
call-Advances p (finish h) v = inl (omega arith)

pub answer-Advances :
    {steady : Bool} {n : ℕ} {m m' : Shared} (c : Caller) {p p' : Peer}
    → PeerMove steady n m p m' p'
    → Phase n m c p
    → Advances n (at m c p) (at m' c p')
answer-Advances c (begin l) v = ground arith
answer-Advances c (leave l) v = ground arith
answer-Advances c (miss l) v = ground arith
answer-Advances c (hit l) v = ground arith
answer-Advances c (again l) v = ground arith
answer-Advances c (stop l) v = ground arith
answer-Advances c (quit l) v = ground arith
answer-Advances c (go l) v = ground arith
answer-Advances c (stamp_back t l) v = ground arith
answer-Advances c hand v = ground arith

-- The caller waits for a thread that has ended.
abbrev pub IsFinished : System → Type 0
IsFinished s = (s.caller ≡ joining) × (s.peer ≡ exited)

abbrev Useful : Bool → ℕ → System → Type 0
Useful steady n s = (t : System) × Step steady n s t × (work n t < work n s)

-- The peer whose turn it is has a useful step.
owing_step :
    (steady : Bool) (n i : ℕ) (m : Shared) (p : Peer)
    → m.turn ≡ 1
    → m.done ≡ false
    → i < n
    → Owes i m p
    → Useful steady n (at m (waiting i) p)
owing_step steady n i m (enter j) e f l o = (_, answer (begin (omega arith)), omega arith)
owing_step steady n i m (spinning j) e f l o = (_, answer (hit e), omega arith)
owing_step steady n i m (checking j) e f l o = (_, answer (again f), ground arith)
owing_step steady n i m (awake j) e f l o = (_, answer (go f), omega arith)
owing_step steady n i m (stamping j) e f l o =
    (_, answer (stamp_back m.clock (λ _. omega arith)), omega arith)
owing_step steady n i m (handing j) e f l o = (_, answer hand, omega arith)
owing_step steady n i m exited e f l o = absurd o

-- After the last round the peer leaves by its own test.
leaving_step :
    (steady : Bool) (n : ℕ) (m : Shared) (p : Peer)
    → Rests n n p
    → (p ≡ exited) ⊎ Useful steady n (at m joining p)
leaving_step steady n m (enter j) r = inr (_, answer (leave (omega arith)), omega arith)
leaving_step steady n m (spinning j) r = absurd (omega arith)
leaving_step steady n m (checking j) r = absurd (omega arith)
leaving_step steady n m (awake j) r = absurd r
leaving_step steady n m (stamping j) r = absurd r
leaving_step steady n m (handing j) r = absurd r
leaving_step steady n m exited r = inl refl

step_forward :
    (steady : Bool) (n : ℕ) (m : Shared) (c : Caller) (p : Peer)
    → Phase n m c p
    → IsFinished (at m c p) ⊎ Useful steady n (at m c p)
step_forward steady n m (head i) p v = elim (Bool-cases (ltb i n)) [
  | inl e ↦
      inr (_, call (stamp m.clock (ltb→lt i n e) (λ _. omega arith)), omega (arith, ltb→lt i n e))
  | inr e ↦ inr (_, call (finish (ground arith)), omega arith)
]
step_forward steady n m (stamped i) p v =
    inr (_, call give, omega (arith, turn-work n i 1 m.turn p v.4))
step_forward steady n m (waiting i) p v = elim v.3 [
  | inl (e, o) ↦ inr (owing_step steady n i m p e v.0 v.1 o)
  | inr (e, k) ↦ inr (_, call (sample e), omega arith)
]
step_forward steady n m joining p v = elim (leaving_step steady n m p v.3) [
  | inl e ↦ inl (refl, e)
  | inr u ↦ inr u
]

-- A run of steps.
pub data Run (steady : Bool) (n : ℕ) : System → System → Type 0 where
  stay : {s : System} → Run steady n s s
  more : {s t u : System} → Step steady n s t → Run steady n t u → Run steady n s u

pub completes :
    (steady : Bool) (n : ℕ) (fuel : ℕ) (s : System)
    → work n s < fuel
    → Phase n s.mem s.caller s.peer
    → (t : System) × Run steady n s t × IsFinished t × Phase n t.mem t.caller t.peer
completes steady n zero s l v = absurd (omega arith)
completes steady n (suc fuel) s l v = elim (step_forward steady n s.mem s.caller s.peer v) [
  | inl e ↦ (s, stay, e, v)
  | inr (t, st, w) ↦
      let (u, r, e, v') = completes steady n fuel t (omega arith) (Step-Phase st v) in
      (u, more st r, e, v')
]
