-- ===== src/ContextSwitch/PingPong.antt =====
-- src/context_switch_cpp.cpp: `ContextSwitchMeasurer::measure_with_threads`. Two threads hand a
-- turn back and forth; each access to `turn` and `done` is one step, and the steps interleave in
-- any order. Readings of the clock are integers, and differences of them are signed.
pub mod Invariant
pub mod Clock
pub mod Progress
pub mod Safety
use context_switching.Prelude.{ℕ, suc, ◌≤◌, ◌<◌, ◌≡◌, ◌≢◌, Bool, true, false, List, [], ◌∷◌, ◌++◌}
use context_switching.Prelude.Int.{ℤ, sub_ℕ}

-- What both threads see, and the times of the caller.
pub record Shared : Type 0 where
  pub turn : ℕ
  pub done : Bool
  pub stamp_0 : ℕ
  pub stamp_1 : ℕ
  pub clock : ℕ  -- the last reading
  pub times : List ℤ

-- Where the caller stands, in round `i` of its loop.
pub data Caller : Type 0 where
  head : (i : ℕ) → Caller  -- the test of the loop
  stamped : (i : ℕ) → Caller  -- before `turn.store(1)`
  waiting : (i : ℕ) → Caller  -- the loop on `turn.load() != 0`
  joining : Caller  -- after `done.store(true)`

-- Where the thread `t1` stands, in round `i` of its loop.
pub data Peer : Type 0 where
  enter : (i : ℕ) → Peer  -- the test of the loop
  spinning : (i : ℕ) → Peer  -- `turn.load() != my_turn`
  checking : (i : ℕ) → Peer  -- `!done.load()` of the same test
  awake : (i : ℕ) → Peer  -- `if (done.load()) break`
  stamping : (i : ℕ) → Peer  -- before its time stamp
  handing : (i : ℕ) → Peer  -- before `turn.store(other_turn)`
  exited : Peer

-- The steps of the caller, over `n` iterations. `steady` says that the clock never goes back, which
-- `std::chrono::high_resolution_clock` does not promise.
pub data CallerMove (steady : Bool) (n : ℕ) (m : Shared) : Caller → Shared → Caller → Type 0 where
  stamp :
      {i : ℕ} (now : ℕ)
      → i < n
      → (steady ≡ true → m.clock ≤ now)
      → CallerMove steady n m (head i) (record m { stamp_0 = now; clock = now }) (stamped i)
  give : {i : ℕ} → CallerMove steady n m (stamped i) (record m { turn = 1 }) (waiting i)
  wait : {i : ℕ} → m.turn ≢ 0 → CallerMove steady n m (waiting i) m (waiting i)
  sample :
      {i : ℕ}
      → m.turn ≡ 0
      → CallerMove steady n m
          (waiting i)
          (record m { times = m.times ++ sub_ℕ m.stamp_1 m.stamp_0 ∷ [] })
          (head (suc i))
  finish : {i : ℕ} → n ≤ i → CallerMove steady n m (head i) (record m { done = true }) joining

-- The steps of `thread_func(1)`.
pub data PeerMove (steady : Bool) (n : ℕ) (m : Shared) : Peer → Shared → Peer → Type 0 where
  begin : {i : ℕ} → i < n → PeerMove steady n m (enter i) m (spinning i)
  leave : {i : ℕ} → n ≤ i → PeerMove steady n m (enter i) m exited
  miss : {i : ℕ} → m.turn ≢ 1 → PeerMove steady n m (spinning i) m (checking i)
  hit : {i : ℕ} → m.turn ≡ 1 → PeerMove steady n m (spinning i) m (awake i)
  again : {i : ℕ} → m.done ≡ false → PeerMove steady n m (checking i) m (spinning i)
  stop : {i : ℕ} → m.done ≡ true → PeerMove steady n m (checking i) m (awake i)
  quit : {i : ℕ} → m.done ≡ true → PeerMove steady n m (awake i) m exited
  go : {i : ℕ} → m.done ≡ false → PeerMove steady n m (awake i) m (stamping i)
  stamp_back :
      {i : ℕ} (now : ℕ)
      → (steady ≡ true → m.clock ≤ now)
      → PeerMove steady n m (stamping i) (record m { stamp_1 = now; clock = now }) (handing i)
  hand : {i : ℕ} → PeerMove steady n m (handing i) (record m { turn = 0 }) (enter (suc i))

pub record System : Type 0 where
  pub mem : Shared
  pub caller : Caller
  pub peer : Peer

pub data Step (steady : Bool) (n : ℕ) (s : System) : System → Type 0 where
  call :
      {m : Shared} {c : Caller}
      → CallerMove steady n s.mem s.caller m c
      → Step steady n s (record s { mem = m; caller = c })
  answer :
      {m : Shared} {p : Peer}
      → PeerMove steady n s.mem s.peer m p
      → Step steady n s (record s { mem = m; peer = p })

-- The state when `t1` has been started, at the reading `now` of the clock.
abbrev pub start_at : ℕ → System
start_at now = record {
  mem = record { turn = 0; done = false; stamp_0 = 0; stamp_1 = 0; clock = now; times = [] };
  caller = head 0;
  peer = enter 0;
}

pub data Reach (steady : Bool) (n now : ℕ) : System → Type 0 where
  start : Reach steady n now (start_at now)
  later : {s t : System} → Reach steady n now s → Step steady n s t → Reach steady n now t
