-- ===== src/ContextSwitch/PingPong/Clock.antt =====
-- src/context_switch_cpp.cpp, `measure_with_threads`: the times, on a clock that does not go back.
use context_switching.Prelude.{
  ℕ, ◌+◌, ◌-◌, ◌≤◌, ◌≡◌, refl, ap, true, [], ◌∷◌, ◌++◌, List, map, arith, sum, All, All-append,
}
use context_switching.Prelude.Int.{ℤ, pos, pos_part, neg_part, sub_ℕ}
use context_switching.ContextSwitch.PingPong.{
  Shared, Caller, head, stamped, waiting, joining, Peer, enter, spinning, checking, awake, stamping,
  handing, exited, CallerMove, stamp, give, wait, sample, finish, PeerMove, begin, leave, miss, hit,
  again, stop, quit, go, stamp_back, hand, System, call, answer, Reach, start, later,
}
use context_switching.ContextSwitch.PingPong.Invariant.{Rests, Phase, Reach-Phase}

-- The peer has taken its stamp of the round.
abbrev pub Stamped : Shared → Peer → Type 0
Stamped m (handing j) = m.stamp_0 ≤ m.stamp_1
Stamped m _ = Unit

-- In the open round, a stamp of the peer is not older than that of the caller.
abbrev pub InOrder : Shared → Caller → Peer → Type 0
InOrder m (waiting i) p = (m.turn ≡ 0 → m.stamp_0 ≤ m.stamp_1) × Stamped m p
InOrder m _ p = Unit

-- The reading up to which the times count.
abbrev pub measured_to : Shared → Caller → ℕ
measured_to m (head i) = m.clock
measured_to m (stamped i) = m.stamp_0
measured_to m (waiting i) = m.stamp_0
measured_to m joining = m.clock

-- A difference of readings that is not negative.
abbrev pub IsTime : ℤ → Type 0
IsTime t = neg_part t ≡ 0

-- The sum of differences that are not negative.
abbrev pub total : List ℤ → ℕ
total ts = sum (map pos_part ts)

pub record Timed (now : ℕ) (m : Shared) (c : Caller) (p : Peer) : Type 0 where
  pub none_negative : All IsTime m.times
  pub stamps : (m.stamp_0 ≤ m.clock) × (m.stamp_1 ≤ m.clock)
  pub elapsed : now + total m.times ≤ measured_to m c
  pub in_order : InOrder m c p

total-append : (ts : List ℤ) (t : ℤ) → total (ts ++ t ∷ []) ≡ total ts + pos_part t
total-append [] t = omega arith
total-append (x ∷ ts) t = omega (arith, total-append ts t)

difference-IsTime : (a b : ℕ) → a ≤ b → (sub_ℕ b a ≡ pos (b - a)) × IsTime (sub_ℕ b a)
difference-IsTime a b h = ground (arith, h)

resting-Stamped : (n i : ℕ) (m : Shared) (p : Peer) → Rests n i p → Stamped m p
resting-Stamped n i m (handing j) r = absurd r
resting-Stamped n i m (enter j) r = tt
resting-Stamped n i m (spinning j) r = tt
resting-Stamped n i m (checking j) r = tt
resting-Stamped n i m (awake j) r = tt
resting-Stamped n i m (stamping j) r = tt
resting-Stamped n i m exited r = tt

CallerMove-Timed :
    {n now : ℕ} {m m' : Shared} {c c' : Caller} (p : Peer)
    → CallerMove true n m c m' c'
    → Phase n m c p
    → Timed now m c p
    → Timed now m' c' p
CallerMove-Timed p (stamp t l k) v h = record {
  none_negative = h.none_negative;
  stamps = omega (arith, h.stamps, k refl);
  elapsed = omega (arith, h.elapsed, k refl);
  in_order = tt;
}
CallerMove-Timed {n} {m = m} p (give {i}) v h = record {
  none_negative = h.none_negative;
  stamps = h.stamps;
  elapsed = h.elapsed;
  in_order = (λ e. absurd (omega (arith, e)), resting-Stamped n i (record m { turn = 1 }) p v.4);
}
CallerMove-Timed p (wait e) v h = h
CallerMove-Timed {m = m} p (sample e) v h =
    let later = h.in_order.0 e in
    let (same, is_time) = difference-IsTime m.stamp_0 m.stamp_1 later in
    record {
      none_negative =
          All-append IsTime m.times (sub_ℕ m.stamp_1 m.stamp_0 ∷ []) h.none_negative (is_time, tt);
      stamps = h.stamps;
      elapsed = omega (
        arith,
        total-append m.times (sub_ℕ m.stamp_1 m.stamp_0),
        ap pos_part same,
        h.elapsed,
        h.stamps,
        later,
      );
      in_order = tt;
    }
CallerMove-Timed p (finish l) v h = record {
  none_negative = h.none_negative;
  stamps = h.stamps;
  elapsed = h.elapsed;
  in_order = tt;
}

PeerMove-Timed :
    {n now : ℕ} {m m' : Shared} (c : Caller) {p p' : Peer}
    → PeerMove true n m p m' p'
    → Timed now m c p
    → Timed now m' c p'
PeerMove-Timed c (begin l) h = ground arith
PeerMove-Timed c (leave l) h = ground arith
PeerMove-Timed c (miss l) h = ground arith
PeerMove-Timed c (hit l) h = ground arith
PeerMove-Timed c (again l) h = ground arith
PeerMove-Timed c (stop l) h = ground arith
PeerMove-Timed c (quit l) h = ground arith
PeerMove-Timed c (go l) h = ground arith
PeerMove-Timed c (stamp_back t k) h = let l = k refl in ground arith
PeerMove-Timed c hand h = ground arith

pub Reach-Timed : {n now : ℕ} {s : System} → Reach true n now s → Timed now s.mem s.caller s.peer
Reach-Timed start = record {
  none_negative = tt;
  stamps = omega arith;
  elapsed = omega arith;
  in_order = tt;
}
Reach-Timed (later {s} r (call mv)) = CallerMove-Timed s.peer mv (Reach-Phase r) (Reach-Timed r)
Reach-Timed (later {s} r (answer mv)) = PeerMove-Timed s.caller mv (Reach-Timed r)
