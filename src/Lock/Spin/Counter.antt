-- ===== src/Lock/Spin/Counter.antt =====
-- src/lock_visualizer_cpp.cpp, `perform_write_operation`: `shared_counter_` against the operations
-- that the threads have recorded.
use context_switching.Prelude.{ℕ, ◌+◌, ◌≡◌, refl, arith}
use context_switching.Prelude.Words.{u64}
use context_switching.Prelude.Double.{Double}
use context_switching.Prelude.Threads.{weigh, weigh-put, weigh_none}
use context_switching.Lock.Statistics.{
  ThreadStatistics, no_statistics, add_wait_time, add_hold_time,
}
use context_switching.Lock.Spin.{
  Shared, Place, looping, Move, again, quit, try_free, try_busy, spin_free, spin_busy,
  note_contention, note_wait, note_acquisition, write, count, unlock, note_operation, System, Step,
  work, time_over, initial,
}
use context_switching.Lock.Spin.Invariant.{in_flight}

-- What the threads below `n` have counted and not recorded.
abbrev pub pending : ℕ → (ℕ → Place) → ℕ
pending n place = weigh in_flight n place

module _ {F : Double} where
  -- What the threads below `n` have recorded.
  abbrev pub recorded : ℕ → (ℕ → ThreadStatistics F) → ℕ
  recorded n stats = weigh (λ s. s.write_operations) n stats

  abbrev pub Counted : ℕ → System F → Type 0
  Counted n s = u64 (s.mem.shared_counter) ≡ u64 (recorded n s.stats + pending n s.place)

  Move-balance :
      {m m' : Shared} {s s' : ThreadStatistics F} {p p' : Place}
      → Move F m s p m' s' p'
      → u64 (m'.shared_counter + s.write_operations + in_flight p)
        ≡ u64 (m.shared_counter + s'.write_operations + in_flight p')
  unfolding add_wait_time add_hold_time
  Move-balance (again e) = omega arith
  Move-balance (quit e) = omega arith
  Move-balance (try_free e) = omega arith
  Move-balance (try_busy e) = omega arith
  Move-balance (spin_free e) = omega arith
  Move-balance (spin_busy e) = omega arith
  Move-balance note_contention = omega arith
  Move-balance (note_wait t) = omega arith
  Move-balance note_acquisition = omega arith
  Move-balance (write i v l) = omega arith
  Move-balance count = omega arith
  Move-balance unlock = omega arith
  Move-balance (note_operation t) = omega arith

  pub Step-Counted : {n : ℕ} {s t : System F} → Step F n s t → Counted n s → Counted n t
  Step-Counted {n} {s} (work i {m} {t} {p} l move) c = omega (
    arith,
    c,
    Move-balance move,
    weigh-put (λ (t : ThreadStatistics F). t.write_operations) n i t s.stats l,
    weigh-put in_flight n i p s.place l,
  )
  Step-Counted time_over c = c

pub initial-Counted : (F : Double) (n : ℕ) (values : ℕ → ℕ) → Counted n (initial F values)
initial-Counted F n values = omega (
  arith,
  weigh_none (λ (t : ThreadStatistics F). t.write_operations) n (λ _. no_statistics F)
      (λ i l. refl),
  weigh_none in_flight n (λ _. looping) (λ i l. refl),
)
