-- ===== src/Lock/Spin/Invariant.antt =====
-- src/lock_visualizer_cpp.cpp, `SpinLock` and `perform_write_operation`: who holds the lock, and
-- what the counters say.
use context_switching.Prelude.{
  ℕ, suc, ◌+◌, ◌≤◌, ◌<◌, ◌≡◌, refl, ◌⊎◌, inl, inr, true, false, [], ◌∷◌, arith, length,
  length-append,
}
use context_switching.Prelude.Words.{u64}
use context_switching.Prelude.Double.{Double}
use context_switching.Prelude.Threads.{put}
use context_switching.Lock.Statistics.{ThreadStatistics, add_wait_time, add_hold_time}
use context_switching.Lock.Spin.{
  Shared, Place, looping, trying, spinning, contended, acquired, timed, writing, counting, leaving,
  released, ended, Move, again, quit, try_free, try_busy, spin_free, spin_busy, note_contention,
  note_wait, note_acquisition, write, count, unlock, note_operation, holds,
}

-- Operations whose wait is recorded and whose acquisition, contention or end is not.
abbrev pub unacquired : Place → ℕ
unacquired timed = 1
unacquired _ = 0

abbrev pub unrecorded : Place → ℕ
unrecorded acquired = 1
unrecorded _ = 0

abbrev pub unfinished : Place → ℕ
unfinished timed = 1
unfinished writing = 1
unfinished counting = 1
unfinished leaving = 1
unfinished released = 1
unfinished _ = 0

-- Writes counted in `shared_counter_` and not yet in the statistics.
abbrev pub in_flight : Place → ℕ
in_flight leaving = 1
in_flight released = 1
in_flight _ = 0

-- The statistics of one worker against the number of its recorded waits.
pub record Consistent {F : Double} (s : ThreadStatistics F) (p : Place) : Type 0 where
  pub acquisitions : u64 (s.lock_acquisitions + unacquired p) ≡ u64 (length s.wait_times)
  pub operations : u64 (s.write_operations + unfinished p) ≡ u64 (length s.wait_times)
  pub contentions :
      (c : ℕ) × (s.lock_contentions ≡ u64 c) × (c ≤ length s.wait_times + unrecorded p)

module _ {F : Double} where
  -- A step that leaves the statistics alone.
  same-Consistent :
      (s : ThreadStatistics F) (p p' : Place)
      → Consistent s p
      → unacquired p' ≡ unacquired p
      → unfinished p' ≡ unfinished p
      → unrecorded p ≤ unrecorded p'
      → Consistent s p'
  same-Consistent s p p' c a b l = record {
    acquisitions = omega (arith, c.acquisitions);
    operations = omega (arith, c.operations);
    contentions = (c.contentions.0, c.contentions.1, omega (arith, c.contentions.2));
  }

  pub Move-Consistent :
      {m m' : Shared} {s s' : ThreadStatistics F} {p p' : Place}
      → Move F m s p m' s' p'
      → Consistent s p
      → Consistent s' p'
  unfolding add_wait_time add_hold_time
  Move-Consistent (again e) c = same-Consistent _ looping trying c refl refl (omega arith)
  Move-Consistent (quit e) c = same-Consistent _ looping ended c refl refl (omega arith)
  Move-Consistent (try_free e) c = same-Consistent _ trying acquired c refl refl (omega arith)
  Move-Consistent (try_busy e) c = same-Consistent _ trying spinning c refl refl (omega arith)
  Move-Consistent (spin_free e) c = same-Consistent _ spinning contended c refl refl (omega arith)
  Move-Consistent (spin_busy e) c = c
  Move-Consistent note_contention c = record {
    acquisitions = c.acquisitions;
    operations = c.operations;
    contentions =
        (suc c.contentions.0, omega (arith, c.contentions.1), omega (arith, c.contentions.2));
  }
  Move-Consistent {s} (note_wait t) c =
      let longer = length-append s.wait_times (t ∷ []) in
      record {
        acquisitions = omega (arith, c.acquisitions, longer);
        operations = omega (arith, c.operations, longer);
        contentions = (c.contentions.0, c.contentions.1, omega (arith, c.contentions.2, longer));
      }
  Move-Consistent note_acquisition c = record {
    acquisitions = omega (arith, c.acquisitions);
    operations = c.operations;
    contentions = c.contentions;
  }
  Move-Consistent (write i v l) c = same-Consistent _ writing counting c refl refl (omega arith)
  Move-Consistent count c = same-Consistent _ counting leaving c refl refl (omega arith)
  Move-Consistent unlock c = same-Consistent _ leaving released c refl refl (omega arith)
  Move-Consistent (note_operation t) c = record {
    acquisitions = c.acquisitions;
    operations = omega (arith, c.operations);
    contentions = c.contentions;
  }

-- The flag and the holders: nobody while it is clear, exactly one thread while it is set.
abbrev pub Owned : ℕ → Shared → (ℕ → Place) → Type 0
Owned n m place =
    ((m.flag ≡ false) × ((j : ℕ) → holds (place j) ≡ false))
    ⊎ ((o : ℕ) × (m.flag ≡ true)
        × (o < n)
        × (holds (place o) ≡ true)
        × ((j : ℕ) → holds (place j) ≡ true → j ≡ o))

-- What a step does to the lock: nothing, a thread takes it while it is free, or its holder frees it.
pub data Effect (m : Shared) (p : Place) (m' : Shared) (p' : Place) : Type 0 where
  stays : m'.flag ≡ m.flag → holds p' ≡ holds p → Effect m p m' p'
  takes : m.flag ≡ false → m'.flag ≡ true → holds p' ≡ true → Effect m p m' p'
  frees : holds p ≡ true → m'.flag ≡ false → holds p' ≡ false → Effect m p m' p'

pub Move-Effect :
    {F : Double} {m m' : Shared} {s s' : ThreadStatistics F} {p p' : Place}
    → Move F m s p m' s' p'
    → Effect m p m' p'
Move-Effect (again e) = stays refl refl
Move-Effect (quit e) = stays refl refl
Move-Effect (try_free e) = takes e refl refl
Move-Effect (try_busy e) = stays refl refl
Move-Effect (spin_free e) = takes e refl refl
Move-Effect (spin_busy e) = stays refl refl
Move-Effect note_contention = stays refl refl
Move-Effect (note_wait t) = stays refl refl
Move-Effect note_acquisition = stays refl refl
Move-Effect (write i v l) = stays refl refl
Move-Effect count = stays refl refl
Move-Effect unlock = frees refl refl refl
Move-Effect (note_operation t) = stays refl refl

module _ {n : ℕ} {m m' : Shared} (place : ℕ → Place) (i : ℕ) (p' : Place) where
  pub Effect-Owned :
      i < n → Effect m (place i) m' p' → Owned n m place → Owned n m' (put i p' place)
  Effect-Owned l (stays e h) (inl (c, none)) = inl (cc, λ j. ground (arith, none j, none i))
  Effect-Owned l (stays e h) (inr (o, c, b, held, only)) =
      inr (o, cc, b, ground (arith, only i), λ j k. ground (arith, only j, only i))
  Effect-Owned l (takes e f h) (inl (c, none)) =
      inr (i, f, l, ground arith, λ j k. ground (arith, none j))
  Effect-Owned l (takes e f h) (inr (o, c, b, held, only)) = cc
  Effect-Owned l (frees e f h) (inl (c, none)) = ground (arith, none i)
  Effect-Owned l (frees e f h) (inr (o, c, b, held, only)) =
      inl (f, λ j. ground (arith, only j, only i))
