-- ===== src/ContextSwitch/PingPong/Invariant.antt =====
-- src/context_switch_cpp.cpp, `measure_with_threads`: whose turn it is, and how much is measured so far.
use context_switching.Prelude.{
  ℕ, suc, ◌≤◌, ◌<◌, ◌≡◌, ◌⊎◌, Bool, true, false, [], ◌∷◌, arith, length, length-append,
}
use context_switching.Prelude.Int.{sub_ℕ}
use context_switching.ContextSwitch.PingPong.{
  Shared, Caller, head, stamped, waiting, joining, Peer, enter, spinning, checking, awake, stamping,
  handing, exited, CallerMove, stamp, give, wait, sample, finish, PeerMove, begin, leave, miss, hit,
  again, stop, quit, go, stamp_back, hand, System, Step, call, answer, start_at, Reach, start,
  later,
}

-- The peer has finished the rounds below `i`, and has not been given round `i`.
abbrev pub Rests : ℕ → ℕ → Peer → Type 0
Rests n i (enter j) = j ≡ i
Rests n i (spinning j) = (j ≡ i) × (j < n)
Rests n i (checking j) = (j ≡ i) × (j < n)
Rests n i exited = i ≡ n
Rests n i _ = ⊥

-- The peer owes the answer of round `i`.
abbrev pub Owes : ℕ → Shared → Peer → Type 0
Owes i m (enter j) = j ≡ i
Owes i m (spinning j) = j ≡ i
Owes i m (checking j) = j ≡ i
Owes i m (awake j) = j ≡ i
Owes i m (stamping j) = j ≡ i
Owes i m (handing j) = j ≡ i
Owes i m exited = ⊥

-- The round is open, and the turn is the peer's or has come back.
abbrev pub Pending : ℕ → ℕ → Shared → Peer → Type 0
Pending n i m p = ((m.turn ≡ 1) × Owes i m p) ⊎ ((m.turn ≡ 0) × Rests n (suc i) p)

abbrev pub Phase : ℕ → Shared → Caller → Peer → Type 0
Phase n m (head i) p =
    (m.turn ≡ 0) × (m.done ≡ false) × (i ≤ n) × (length m.times ≡ i) × Rests n i p
Phase n m (stamped i) p =
    (m.turn ≡ 0) × (m.done ≡ false) × (i < n) × (length m.times ≡ i) × Rests n i p
Phase n m (waiting i) p = (m.done ≡ false) × (i < n) × (length m.times ≡ i) × Pending n i m p
Phase n m joining p = (m.turn ≡ 0) × (m.done ≡ true) × (length m.times ≡ n) × Rests n n p

start-Phase : (n now : ℕ) → Phase n (start_at now).mem (head 0) (enter 0)
start-Phase n now = ground arith

-- A peer at rest before a round that is to come takes it.
Rests-Owes : {n i : ℕ} (m : Shared) (p : Peer) → Rests n i p → i < n → Owes i m p
Rests-Owes m (enter j) r l = r
Rests-Owes m (spinning j) r l = r.0
Rests-Owes m (checking j) r l = r.0
Rests-Owes m (awake j) r l = absurd r
Rests-Owes m (stamping j) r l = absurd r
Rests-Owes m (handing j) r l = absurd r
Rests-Owes m exited r l = absurd (omega arith)

CallerMove-Phase :
    {steady : Bool} {n : ℕ} {m m' : Shared} {c c' : Caller} (p : Peer)
    → CallerMove steady n m c m' c'
    → Phase n m c p
    → Phase n m' c' p
CallerMove-Phase p (stamp t l k) v = ground arith
CallerMove-Phase {n} {m} p (give {i}) v =
    ground (arith, Rests-Owes {n = n} {i = i} (record m { turn = 1 }) p)
CallerMove-Phase p (wait h) v = v
CallerMove-Phase {m} p (sample h) v =
    ground (arith, length-append m.times (sub_ℕ m.stamp_1 m.stamp_0 ∷ []))
CallerMove-Phase {n} p (finish {i} h) v = let e : i ≡ n = omega arith in ground arith

PeerMove-Phase :
    {steady : Bool} {n : ℕ} {m m' : Shared} (c : Caller) {p p' : Peer}
    → PeerMove steady n m p m' p'
    → Phase n m c p
    → Phase n m' c p'
PeerMove-Phase c (begin l) v = ground arith
PeerMove-Phase c (leave l) v = ground arith
PeerMove-Phase c (miss l) v = ground arith
PeerMove-Phase c (hit l) v = ground arith
PeerMove-Phase c (again l) v = ground arith
PeerMove-Phase c (stop l) v = ground arith
PeerMove-Phase c (quit l) v = ground arith
PeerMove-Phase c (go l) v = ground arith
PeerMove-Phase c (stamp_back t l) v = ground arith
PeerMove-Phase c hand v = ground arith

pub Step-Phase :
    {steady : Bool} {n : ℕ} {s t : System}
    → Step steady n s t
    → Phase n s.mem s.caller s.peer
    → Phase n t.mem t.caller t.peer
Step-Phase {s} (call mv) v = CallerMove-Phase s.peer mv v
Step-Phase {s} (answer mv) v = PeerMove-Phase s.caller mv v

pub Reach-Phase :
    {steady : Bool} {n now : ℕ} {s : System} → Reach steady n now s → Phase n s.mem s.caller s.peer
Reach-Phase {n} {now} start = start-Phase n now
Reach-Phase (later r st) = Step-Phase st (Reach-Phase r)
