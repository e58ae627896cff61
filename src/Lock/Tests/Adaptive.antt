-- ===== src/Lock/Tests/Adaptive.antt =====
-- Concrete runs of `AdaptiveMutex`.
use native.Mathlib.Decide.{ℕ_discrete}
use context_switching.Prelude.{◌≡◌, refl, true, false, none, arith}
use context_switching.Prelude.Threads.{put}
use context_switching.Lock.Adaptive.{
  outside, trying, spinning, critical, unlocking, call, try_free, try_busy, clear, State, initial,
  turn, Steps, Alone, done, next, inside,
}
use context_switching.Lock.Adaptive.Faults.{two_inside}

-- Thread 0 has the lock by an exchange and thread 1 begins to spin.
abbrev crowd : State
crowd = record {
  mutex = record { state = 1; fallback = none; undefined = false };
  stage = put 1 (spinning 0) (put 1 trying (put 0 (critical false) (put 0 trying (λ _. outside))));
}

crowd_reached : Steps 2 initial crowd
unfolding ℕ_discrete
crowd_reached =
    next
      (next
        (next (next done (turn 0 (omega arith) refl call))
          (turn 0 (omega arith) refl (try_free refl)))
        (turn 1 (omega arith) refl call))
      (turn 1 (omega arith) refl (try_busy (λ e. absurd (omega (arith, e)))))

two_inside_example :
    (t : State) × Alone 2 1 crowd t × (inside (t.stage 0) ≡ true) × (inside (t.stage 1) ≡ true)
unfolding ℕ_discrete
two_inside_example =
    two_inside 0 1 0 (omega arith) (λ e. absurd (omega (arith, e))) refl refl refl refl
      (omega arith)

-- Thread 0 leaves.
abbrev leaving : State
leaving = record {
  mutex = record { state = 0; fallback = none; undefined = false };
  stage = put 0 (unlocking false) crowd.stage;
}

leaving_reached : Steps 2 initial leaving
unfolding ℕ_discrete
leaving_reached = next crowd_reached (turn 0 (omega arith) refl clear)
