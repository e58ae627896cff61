-- ===== src/Lock/Adaptive.antt =====
-- src/lock_visualizer_cpp.cpp: `AdaptiveMutex`, under `LockContentionAnalyzer<AdaptiveMutex>`, where
-- `n` threads call `try_lock`, `lock` if that fails, and `unlock`, again and again. Each access to
-- shared memory is one step, and the steps interleave in any order.
pub mod Owner
pub mod Faults
use mathlib.Core.Logic.{ite}
use native.Mathlib.Decide.{ℕ_discrete}
use context_switching.Prelude.{
  ℕ, suc, ◌+◌, ◌≤◌, ◌<◌, ◌≡◌, ◌≢◌, Bool, true, false, Option, none, some,
}
use context_switching.Prelude.Threads.{put}

pub record Mutex : Type 0 where
  pub state : ℕ  -- `state_`, 0 or 1
  pub fallback : Option ℕ  -- the owner of `fallback_mutex_`
  pub undefined : Bool  -- an `unlock` of `fallback_mutex_` by a thread that does not own it

abbrev pub spin_limit : ℕ
spin_limit = 100

-- Where a thread stands. A Boolean tells whether it came by way of `fallback_mutex_`.
pub data Stage : Type 0 where
  outside : Stage
  trying : Stage  -- `try_lock`
  spinning : ℕ → Stage  -- the loop of `lock`, at this `spin_count`
  blocked : Stage  -- before `fallback_mutex_.lock()`
  storing : Stage  -- before the store of 1
  critical : Bool → Stage  -- the caller's critical section, then the store of 0
  unlocking : Bool → Stage  -- before `fallback_mutex_.unlock()`

-- One step of thread `i`. The weak exchange may fail at any value of `state_`.
pub data Turn (i : ℕ) (m : Mutex) : Stage → Mutex → Stage → Type 0 where
  call : Turn i m outside m trying
  try_free : m.state ≡ 0 → Turn i m trying (record m { state = 1 }) (critical false)
  try_busy : m.state ≢ 0 → Turn i m trying m (spinning 0)
  spin_free :
      {k : ℕ}
      → k < spin_limit
      → m.state ≡ 0
      → Turn i m (spinning k) (record m { state = 1 }) (critical false)
  spin_on : {k : ℕ} → k < spin_limit → Turn i m (spinning k) m (spinning (k + 1))
  spin_over : {k : ℕ} → spin_limit ≤ k → Turn i m (spinning k) m blocked
  block : m.fallback ≡ none → Turn i m blocked (record m { fallback = some i }) storing
  store : Turn i m storing (record m { state = 1 }) (critical true)
  clear : {b : Bool} → Turn i m (critical b) (record m { state = 0 }) (unlocking b)
  unlock_owned :
      {b : Bool}
      → m.fallback ≡ some i
      → Turn i m (unlocking b) (record m { fallback = none }) outside
  unlock_foreign :
      {b : Bool}
      → m.fallback ≢ some i
      → Turn i m (unlocking b) (record m { undefined = true }) outside

pub record State : Type 0 where
  pub mutex : Mutex
  pub stage : ℕ → Stage

abbrev pub initial : State
initial = record {
  mutex = record { state = 0; fallback = none; undefined = false };
  stage = λ _. outside;
}

-- Nothing is said of what follows undefined behaviour.
pub data Step (n : ℕ) (s : State) : State → Type 0 where
  turn :
      (i : ℕ) {m : Mutex} {p : Stage}
      → i < n
      → s.mutex.undefined ≡ false
      → Turn i s.mutex (s.stage i) m p
      → Step n s (record { mutex = m; stage = put i p s.stage })

pub data Steps (n : ℕ) (s : State) : State → Type 0 where
  done : Steps n s s
  next : {t u : State} → Steps n s t → Step n t u → Steps n s u

-- Steps of thread `j` only.
pub data Alone (n j : ℕ) (s : State) : State → Type 0 where
  none_yet : Alone n j s s
  once_more :
      {t : State} {m : Mutex} {p : Stage}
      → Alone n j s t
      → j < n
      → t.mutex.undefined ≡ false
      → Turn j t.mutex (t.stage j) m p
      → Alone n j s (record { mutex = m; stage = put j p t.stage })

abbrev pub inside : Stage → Bool
inside (critical _) = true
inside _ = false
