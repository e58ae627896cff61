-- ===== src/Lock/ReadWrite/Counters.antt =====
-- src/lock_visualizer_cpp.cpp, `perform_read_operation` and `perform_write_operation` under a
-- `std::shared_mutex`: the shared counter and the statistics of the threads.
use context_switching.Prelude.{ℕ, ◌+◌, ◌≡◌, refl, arith}
use context_switching.Prelude.Words.{u64}
use context_switching.Prelude.Double.{Double}
use context_switching.Prelude.Threads.{put_both, weigh, weigh-put, weigh_none}
use context_switching.Lock.Statistics.{
  ThreadStatistics, no_statistics, add_wait_time, add_hold_time,
}
use context_switching.Lock.Workload.{reading, writing}
use context_switching.Lock.ReadWrite.{
  Protected, Position, looping, working, counting, leaving, released, Advance, again, quit,
  try_locks, try_fails, lock, note_contention, note_wait, note_acquisition, read, write, count,
  unlock, note_operation, Crowd, Proceed, work, time_over, Reached, start, later,
}

-- Operations whose acquisition is recorded and whose end is not.
abbrev pub running : Position → ℕ
running (working _) = 1
running counting = 1
running (leaving _) = 1
running (released _) = 1
running _ = 0

-- Writes counted in `shared_counter_` and not yet in the statistics.
abbrev pub unrecorded : Position → ℕ
unrecorded (leaving writing) = 1
unrecorded (released writing) = 1
unrecorded _ = 0

module _ {F : Double} where
  abbrev Matched : ThreadStatistics F → Position → Type 0
  Matched s p = u64 (s.lock_acquisitions) ≡ u64 (s.read_operations + s.write_operations + running p)

  Advance-Matched :
      {m m' : Protected} {s s' : ThreadStatistics F} {p p' : Position}
      → Advance F m s p m' s' p'
      → Matched s p
      → Matched s' p'
  unfolding add_wait_time add_hold_time
  Advance-Matched (again o h) c = c
  Advance-Matched (quit h) c = c
  Advance-Matched (try_locks o h) c = c
  Advance-Matched (try_fails o) c = c
  Advance-Matched (lock o h) c = c
  Advance-Matched (note_contention o) c = c
  Advance-Matched (note_wait o time) c = c
  Advance-Matched (note_acquisition o) c = omega (arith, c)
  Advance-Matched (read index l) c = c
  Advance-Matched (write index value l) c = c
  Advance-Matched count c = c
  Advance-Matched (unlock o) c = c
  Advance-Matched (note_operation reading time) c = omega (arith, c)
  Advance-Matched (note_operation writing time) c = omega (arith, c)

  Advance-balance :
      {m m' : Protected} {s s' : ThreadStatistics F} {p p' : Position}
      → Advance F m s p m' s' p'
      → u64 (m'.shared_counter + s.write_operations + unrecorded p)
        ≡ u64 (m.shared_counter + s'.write_operations + unrecorded p')
  unfolding add_wait_time add_hold_time
  Advance-balance (again o h) = refl
  Advance-balance (quit h) = refl
  Advance-balance (try_locks reading h) = refl
  Advance-balance (try_locks writing h) = refl
  Advance-balance (try_fails o) = refl
  Advance-balance (lock reading h) = refl
  Advance-balance (lock writing h) = refl
  Advance-balance (note_contention o) = refl
  Advance-balance (note_wait o time) = refl
  Advance-balance (note_acquisition o) = refl
  Advance-balance (read index l) = refl
  Advance-balance (write index value l) = refl
  Advance-balance count = omega arith
  Advance-balance (unlock reading) = refl
  Advance-balance (unlock writing) = refl
  Advance-balance (note_operation reading time) = refl
  Advance-balance (note_operation writing time) = omega arith

-- The shared counter against the writes of all, and the acquisitions of each worker against its
-- operations.
abbrev pub Accounted : {F : Double} → ℕ → Crowd F → Type 0
Accounted {F} n s =
    (u64 (s.mem.shared_counter)
      ≡ u64 (
          weigh (λ (t : ThreadStatistics F). t.write_operations) n s.stats
          + weigh unrecorded n s.position))
    × ((i : ℕ)
        → u64 ((s.stats i).lock_acquisitions)
          ≡ u64
              ((s.stats i).read_operations + (s.stats i).write_operations + running (s.position i)))

Proceed-Accounted :
    {F : Double} {n : ℕ} {s t : Crowd F} → Proceed F n s t → Accounted n s → Accounted n t
Proceed-Accounted {F} {n} {s} (work i {m} {t} {p} l step) (c, each) = (
  omega (
    arith,
    c,
    Advance-balance step,
    weigh-put (λ (t : ThreadStatistics F). t.write_operations) n i t s.stats l,
    weigh-put unrecorded n i p s.position l,
  ),
  λ j. put_both Matched i j s.stats s.position (Advance-Matched step (each i)) (each j),
)
Proceed-Accounted time_over c = c

-- In every state that n workers reach, modulo 2^64: the shared counter is the sum of the writes recorded
-- and of those counted under the lock and not yet recorded, and each worker has recorded as many
-- acquisitions as reads and writes, but for the operation it is in.
pub reads_and_writes_counted : {F : Double} {n : ℕ} {s : Crowd F} → Reached F n s → Accounted n s
reads_and_writes_counted {F} {n} start = (
  omega (
    arith,
    weigh_none (λ (t : ThreadStatistics F). t.write_operations) n (λ _. no_statistics F)
        (λ i l. refl),
    weigh_none unrecorded n (λ _. looping) (λ i l. refl),
  ),
  λ i. refl,
)
reads_and_writes_counted (later r step) = Proceed-Accounted step (reads_and_writes_counted r)
