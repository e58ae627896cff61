-- ===== src/Lock/Adaptive/Faults.antt =====
-- src/lock_visualizer_cpp.cpp, `AdaptiveMutex`: what `unlock` does to a `fallback_mutex_` that the
-- thread does not own, and two threads inside.
use context_switching.Prelude.{
  ℕ, zero, suc, ◌+◌, ◌-◌, ◌≤◌, ◌<◌, ◌≡◌, ◌≢◌, refl, ap, subst⁻¹, ◌∙◌, Bool, true, false, not, none,
  some, arith,
}
use context_switching.Prelude.Threads.{put, put_same, put_other}
use context_switching.Lock.Adaptive.{
  Mutex, spin_limit, Stage, spinning, blocked, critical, unlocking, Turn, spin_on, spin_over, block,
  store, unlock_owned, unlock_foreign, State, initial, Steps, Alone, none_yet, once_more, inside,
}
use context_switching.Lock.Adaptive.Owner.{Tracked, Steps-Tracked}

owned_not_undefined :
    {i : ℕ} {b : Bool} {m m' : Mutex} {p : Stage} (stage : ℕ → Stage)
    → Tracked m stage
    → m.undefined ≡ false
    → stage i ≡ unlocking b
    → Turn i m (unlocking b) m' p
    → m'.undefined ≡ not b
owned_not_undefined {i} {b} stage c d e (unlock_owned o) = ground (arith, c.owner_owns i o)
owned_not_undefined {i} {b} stage c d e (unlock_foreign o) = ground (arith, c.owns_owner i)

-- In every state that n threads reach without undefined behaviour, the last step of unlock is
-- undefined for a thread that took the lock by an exchange of state_, and is not for one that took it
-- by way of fallback_mutex_.
unlock_outcome :
    {n : ℕ} {s : State} {m : Mutex} {p : Stage} (i : ℕ) (by_fallback : Bool)
    → Steps n initial s
    → s.mutex.undefined ≡ false
    → s.stage i ≡ unlocking by_fallback
    → Turn i s.mutex (unlocking by_fallback) m p
    → m.undefined ≡ not by_fallback
unlock_outcome {s = s} i b r d e t = owned_not_undefined s.stage (Steps-Tracked r) d e t

-- The state `t` is `s` with another mutex and with thread `j` at another place.
record Moved (n j : ℕ) (s : State) (m : Mutex) (p : Stage) : Type 0 where
  last : State
  run : Alone n j s last
  mutex_there : last.mutex ≡ m
  stage_there : last.stage j ≡ p
  others : (i : ℕ) → i ≢ j → last.stage i ≡ s.stage i

module _ {n j : ℕ} {s : State} (l : j < n) where
  -- One more step of thread `j`.
  onward :
      {m m' : Mutex} {p p' : Stage}
      → Moved n j s m p
      → m.undefined ≡ false
      → Turn j m p m' p'
      → Moved n j s m' p'
  onward {m} {m'} {p} {p'} v d k = record {
    last = record { mutex = m'; stage = put j p' v.last.stage };
    run = once_more v.run l (ap (λ (x : Mutex). x.undefined) v.mutex_there ∙ d) (
        subst⁻¹ (λ x. Turn j x (v.last.stage j) m' p') v.mutex_there
          (subst⁻¹ (λ x. Turn j m x m' p') v.stage_there k));
    mutex_there = refl;
    stage_there = put_same j p' v.last.stage;
    others = λ i h. put_other j i p' v.last.stage h ∙ v.others i h;
  }

  spin_out :
      (r : ℕ) {k : ℕ} {m : Mutex}
      → r + k ≡ spin_limit
      → m.undefined ≡ false
      → Moved n j s m (spinning k)
      → Moved n j s m blocked
  spin_out zero e d v = onward v d (spin_over (omega (arith, e)))
  spin_out (suc r) {k} e d v =
      spin_out r (omega (arith, e)) d (onward v d (spin_on (omega (arith, e))))

  fall_back :
      {m : Mutex}
      → m.undefined ≡ false
      → m.fallback ≡ none
      → Moved n j s m blocked
      → Moved n j s (record m { fallback = some j; state = 1 }) (critical true)
  fall_back d e v = onward (onward v d (block e)) d store

-- Where nothing undefined has happened, a thread in the loop of lock, within its spins, gets in
-- beside another one that is inside whenever nobody owns fallback_mutex_: some steps of this thread
-- alone, with no step of any other thread, lead to a state with both inside.
pub two_inside :
    {n : ℕ} {s : State} (i j k : ℕ)
    → j < n
    → i ≢ j
    → s.mutex.undefined ≡ false
    → s.mutex.fallback ≡ none
    → inside (s.stage i) ≡ true
    → s.stage j ≡ spinning k
    → k ≤ spin_limit
    → (t : State) × Alone n j s t × (inside (t.stage i) ≡ true) × (inside (t.stage j) ≡ true)
two_inside {n} {s} i j k l h d f a b e =
    let here : Moved n j s s.mutex (spinning k) = record {
      last = s;
      run = none_yet;
      mutex_there = refl;
      stage_there = b;
      others = λ _ _. refl;
    } in
    let v = fall_back l d f (spin_out l (spin_limit - k) (omega (arith, e)) d here) in
    (v.last, v.run, ap inside (v.others i h) ∙ a, ap inside v.stage_there)
