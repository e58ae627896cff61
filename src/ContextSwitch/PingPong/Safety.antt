-- ===== src/ContextSwitch/PingPong/Safety.antt =====
-- src/context_switch_cpp.cpp, `measure_with_threads`: what every interleaving of the two threads
-- guarantees.
use context_switching.Prelude.{
  ℕ, suc, ◌+◌, ◌≤◌, ◌<◌, ◌≡◌, ◌⊎◌, Bool, true, false, arith, length, All, subst,
}
use context_switching.ContextSwitch.PingPong.{
  waiting, joining, Peer, enter, awake, stamping, exited, System, Step, call, answer, Reach,
}
use context_switching.ContextSwitch.PingPong.Invariant.{Rests, Phase, Reach-Phase}
use context_switching.ContextSwitch.PingPong.Clock.{IsTime, total, measured_to, Reach-Timed}
use context_switching.ContextSwitch.PingPong.Progress.{
  work, Spins, call-Advances, answer-Advances, IsFinished, Run, completes,
}

peer_at_end : (n : ℕ) (p : Peer) → Rests n n p → (p ≡ enter n) ⊎ (p ≡ exited)
peer_at_end n p r = ground (arith, r)

-- On a clock that does not go back: when the caller's loop has ended, it holds one time for each
-- iteration, none of them negative, the thread has made all its rounds, and the times add up to at most
-- the time since the start.
pub measured_all :
    {n now : ℕ} {s : System}
    → Reach true n now s
    → s.caller ≡ joining
    → (length s.mem.times ≡ n)
      × All IsTime s.mem.times
      × (now + total s.mem.times ≤ s.mem.clock)
      × ((s.peer ≡ enter n) ⊎ (s.peer ≡ exited))
measured_all {n} {now} {s} r e =
    let v = subst (λ c. Phase n s.mem c s.peer) e (Reach-Phase r) in
    let h = Reach-Timed r in
    let l = subst (λ c. now + total s.mem.times ≤ measured_to s.mem c) e h.elapsed in
    (v.2, h.none_negative, l, peer_at_end n s.peer v.3)

-- The thread takes its time stamp only while the caller waits in the same round with the turn
-- handed over, and never leaves its loop through the test of `done`.
stamps_in_turn :
    {steady : Bool} {n now i : ℕ} {s : System}
    → Reach steady n now s
    → ((s.peer ≡ stamping i) → (s.caller ≡ waiting i) × (s.mem.turn ≡ 1))
      × ((s.peer ≡ awake i) → s.mem.done ≡ false)
stamps_in_turn {s} r = (λ e. ground (arith, Reach-Phase r), λ e. ground (arith, Reach-Phase r))

-- On a clock that does not go back: when the turn comes back to the waiting caller, the thread's stamp
-- of this round is not older than the caller's, and the thread is at rest before the next round.
answer_in_time :
    {n now i : ℕ} {s : System}
    → Reach true n now s
    → s.caller ≡ waiting i
    → s.mem.turn ≡ 0
    → (s.mem.stamp_0 ≤ s.mem.stamp_1) × Rests n (suc i) s.peer
answer_in_time r e f = ground (arith, Reach-Phase r, Reach-Timed r)

-- Each step either leaves the memory and the work that is left alone, as a turn of a waiting loop
-- does, or makes the work that is left smaller.
pub Step-Advances :
    {steady : Bool} {n now : ℕ} {s t : System}
    → Reach steady n now s
    → Step steady n s t
    → (work n t < work n s) ⊎ Spins n s t
Step-Advances {s} r (call mv) = call-Advances s.peer mv (Reach-Phase r)
Step-Advances {s} r (answer mv) = answer-Advances s.caller mv (Reach-Phase r)

-- There is no deadlock: from every state that can be reached, some run of the two threads ends
-- with both finished and all times measured.
pub can_finish :
    {steady : Bool} {n now : ℕ} {s : System}
    → Reach steady n now s
    → (t : System) × Run steady n s t × IsFinished t × (length t.mem.times ≡ n)
can_finish {steady} {n} {now} {s} r =
    let (t, run, e, v) = completes steady n (suc (work n s)) s (omega arith) (Reach-Phase r) in
    (t, run, e, ground arith)
