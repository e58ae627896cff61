-- ===== src/Lock/Tests/ReadWrite.antt =====
-- Concrete runs of the readers and writers of the lock visualizer.
use native.Mathlib.Decide.{ℕ_discrete}
use context_switching.Prelude.{◌≡◌, refl, true, arith}
use context_switching.Prelude.Threads.{put}
use context_switching.Prelude.Double.{hundredths}
use context_switching.Lock.Workload.{reading, writing}
use context_switching.Lock.ReadWrite.{
  Protected, Crowd, gathered, looping, trying, blocked, acquired, timed, working, Reached, start,
  later, work, again, try_locks, try_fails, note_wait, note_acquisition, reads, writes,
}
use context_switching.Lock.ReadWrite.Safety.{writer_alone}
use context_switching.Lock.ReadWrite.Counters.{Accounted, reads_and_writes_counted}
use context_switching.Lock.Statistics.{ThreadStatistics, no_statistics, add_wait_time}

abbrev nothing : ThreadStatistics hundredths
nothing = no_statistics hundredths

abbrev at_rest : Protected
at_rest = (gathered hundredths).mem

-- Thread 0 has locked for a write; thread 1 wanted to read and waits.
abbrev occupied : Crowd hundredths
occupied = record {
  mem = record at_rest { writer = true };
  position =
      put 1 (blocked reading)
        (put 1 (trying reading) (put 0 (acquired writing) (put 0 (trying writing) (λ _. looping))));
  stats = put 1 nothing (put 1 nothing (put 0 nothing (put 0 nothing (λ _. nothing))));
}

occupied-Reached : Reached hundredths 2 occupied
unfolding ℕ_discrete
occupied-Reached =
    later
      (later
        (later (later start (work 0 (omega arith) (again writing refl)))
          (work 0 (omega arith) (try_locks writing (refl, refl))))
        (work 1 (omega arith) (again reading refl)))
      (work 1 (omega arith) (try_fails reading))

writer_alone_example : (reads (occupied.position 1) ≡ 0) × (writes (occupied.position 1) ≡ 0)
unfolding ℕ_discrete
writer_alone_example =
    writer_alone 0 1 occupied-Reached (omega arith) (omega arith) (omega arith) refl

-- Thread 0 reads alone and has recorded its acquisition; thread 1 reads beside it.
abbrev waited : ThreadStatistics hundredths
waited = add_wait_time hundredths 7 nothing

abbrev shared_by_two : Crowd hundredths
shared_by_two = record {
  mem = record at_rest { readers = 2 };
  position = put 1 (acquired reading) (
      put 1 (trying reading) (
        put 0 (working reading) (
          put 0 (timed reading)
            (put 0 (acquired reading) (put 0 (trying reading) (λ _. looping))))));
  stats = put 1 nothing (
      put 1 nothing (
        put 0 (record waited { lock_acquisitions = 1 })
          (put 0 waited (put 0 nothing (put 0 nothing (λ _. nothing))))));
}

shared_by_two-Reached : Reached hundredths 2 shared_by_two
unfolding ℕ_discrete add_wait_time
shared_by_two-Reached =
    later
      (later
        (later
          (later
            (later (later start (work 0 (omega arith) (again reading refl)))
              (work 0 (omega arith) (try_locks reading refl)))
            (work 0 (omega arith) (note_wait reading 7)))
          (work 0 (omega arith) (note_acquisition reading)))
        (work 1 (omega arith) (again reading refl)))
      (work 1 (omega arith) (try_locks reading refl))

reads_and_writes_counted_example : Accounted 2 shared_by_two
reads_and_writes_counted_example = reads_and_writes_counted shared_by_two-Reached
