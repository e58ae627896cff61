-- ===== src/Lock/Adaptive/Owner.antt =====
-- src/lock_visualizer_cpp.cpp, `AdaptiveMutex`: who owns `fallback_mutex_`.
use context_switching.Prelude.{ℕ, ◌≡◌, ◌≢◌, refl, Bool, true, false, none, some, arith}
use context_switching.Prelude.Threads.{put}
use context_switching.Lock.Adaptive.{
  Mutex, Stage, storing, critical, unlocking, Turn, call, try_free, try_busy, spin_free, spin_on,
  spin_over, block, store, clear, unlock_owned, unlock_foreign, State, initial, Step, turn, Steps,
  done, next,
}

-- Between `fallback_mutex_.lock()` and `fallback_mutex_.unlock()`.
abbrev pub owns : Stage → Bool
owns storing = true
owns (critical b) = b
owns (unlocking b) = b
owns _ = false

-- The owner of `fallback_mutex_` is the one thread that came by way of it.
pub record Tracked (m : Mutex) (stage : ℕ → Stage) : Type 0 where
  pub owner_owns : (i : ℕ) → m.fallback ≡ some i → owns (stage i) ≡ true
  pub owns_owner : (i : ℕ) → owns (stage i) ≡ true → m.fallback ≡ some i

-- What a step does to `fallback_mutex_`.
data Change (i : ℕ) (m : Mutex) (p : Stage) (m' : Mutex) (p' : Stage) : Type 0 where
  keeps : m'.fallback ≡ m.fallback → owns p' ≡ owns p → Change i m p m' p'
  takes : m.fallback ≡ none → m'.fallback ≡ some i → owns p' ≡ true → Change i m p m' p'
  frees : m.fallback ≡ some i → m'.fallback ≡ none → owns p' ≡ false → Change i m p m' p'
  errs : m.fallback ≢ some i → m'.fallback ≡ m.fallback → owns p' ≡ false → Change i m p m' p'

Turn-Change : {i : ℕ} {m m' : Mutex} {p p' : Stage} → Turn i m p m' p' → Change i m p m' p'
Turn-Change call = keeps refl refl
Turn-Change (try_free e) = keeps refl refl
Turn-Change (try_busy e) = keeps refl refl
Turn-Change (spin_free l e) = keeps refl refl
Turn-Change (spin_on l) = keeps refl refl
Turn-Change (spin_over l) = keeps refl refl
Turn-Change (block e) = takes e refl refl
Turn-Change store = keeps refl refl
Turn-Change clear = keeps refl refl
Turn-Change (unlock_owned e) = frees e refl refl
Turn-Change (unlock_foreign e) = errs e refl refl

module _ {m m' : Mutex} (stage : ℕ → Stage) (i : ℕ) (p' : Stage) where
  Change-Tracked : Change i m (stage i) m' p' → Tracked m stage → Tracked m' (put i p' stage)
  Change-Tracked (keeps e o) c = record {
    owner_owns = λ j h. ground (arith, c.owner_owns j);
    owns_owner = λ j h. ground (arith, c.owns_owner j);
  }
  Change-Tracked (takes e f o) c = record {
    owner_owns = λ j h. ground (arith, c.owner_owns j);
    owns_owner = λ j h. ground (arith, c.owns_owner j);
  }
  Change-Tracked (frees e f o) c = record {
    owner_owns = λ j h. ground (arith, c.owner_owns j);
    owns_owner = λ j h. ground (arith, c.owns_owner j);
  }
  Change-Tracked (errs e f o) c = record {
    owner_owns = λ j h. ground (arith, c.owner_owns j);
    owns_owner = λ j h. ground (arith, c.owns_owner j);
  }

Step-Tracked :
    {n : ℕ} {s t : State} → Step n s t → Tracked s.mutex s.stage → Tracked t.mutex t.stage
Step-Tracked {s = s} (turn i {m} {p} l d k) c = Change-Tracked s.stage i p (Turn-Change k) c

initial-Tracked : Tracked (initial.mutex) (initial.stage)
initial-Tracked = record {
  owner_owns = λ i h. ground (arith, h);
  owns_owner = λ i h. ground (arith, h);
}

pub Steps-Tracked : {n : ℕ} {s : State} → Steps n initial s → Tracked s.mutex s.stage
Steps-Tracked done = initial-Tracked
Steps-Tracked (next r k) = Step-Tracked k (Steps-Tracked r)
