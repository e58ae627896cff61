-- ===== src/Lock/Tests.antt =====
-- Concrete runs of the lock visualizer.
pub mod Adaptive
pub mod Analysis
pub mod ReadWrite
use native.Mathlib.Decide.{ℕ_discrete}
use context_switching.Prelude.{
  ℕ, ◌+◌, ◌*◌, ◌≤◌, ◌<◌, ◌≡◌, refl, ◌⊎◌, inl, inr, Bool, true, false, List, [], ◌∷◌, some, arith,
  All, ltb,
}
use context_switching.Prelude.Double.{
  Double, hundredths, hundredths-IsOrdered, hundredths-IsMonotone,
}
use context_switching.Prelude.Threads.{put}
use context_switching.Lock.Statistics.{
  ThreadStatistics, no_statistics, add_wait_time, add_hold_time,
}
use context_switching.Lock.Spin.{
  System, Step, work, time_over, initial, Reach, start, later, Place, looping, trying, acquired,
  Shared, again, try_free, try_busy, spinning, quit, note_wait, note_acquisition, write, count,
  unlock, note_operation, timed, writing, counting, leaving, released, ended,
}
use context_switching.Lock.Spin.Safety.{mutual_exclusion, statistics-Consistent, no_lost_update}
use context_switching.Lock.Spin.Invariant.{Consistent}
use context_switching.Lock.Spin.Counter.{Counted}
use context_switching.Lock.Spin.Progress.{CanLock, waiting-CanLock}
use context_switching.Lock.Workload.{mutex, spinlock, shared_mutex}
use context_switching.Lock.Analysis.{Totals, analyze_results}
use context_switching.Lock.Analysis.Sums.{listed, printed_writes}
use context_switching.Lock.Analysis.Maximum.{printed_maximum}
use context_switching.Prelude.Words.{u64}

abbrev nothing : ThreadStatistics hundredths
nothing = no_statistics hundredths

abbrev idle_memory : Shared
idle_memory = (initial hundredths (λ _. 0)).mem

-- Thread 0 has the lock and thread 1 spins.
abbrev taken : System hundredths
taken = record {
  mem = record idle_memory { flag = true };
  place = put 1 spinning (put 1 trying (put 0 acquired (put 0 trying (λ _. looping))));
  stats = put 1 nothing (put 1 nothing (put 0 nothing (put 0 nothing (λ _. nothing))));
}

taken_reached : Reach hundredths 2 taken
unfolding ℕ_discrete
taken_reached =
    later
      (later
        (later (later start (work 0 (omega arith) (again refl)))
          (work 0 (omega arith) (try_free refl)))
        (work 1 (omega arith) (again refl)))
      (work 1 (omega arith) (try_busy refl))

mutual_exclusion_example : ◌≡◌ {A = ℕ} 0 0
unfolding ℕ_discrete
mutual_exclusion_example = mutual_exclusion 0 0 taken_reached refl refl

waiting-CanLock_example : CanLock 2 1 taken
unfolding ℕ_discrete
waiting-CanLock_example = waiting-CanLock 1 taken_reached (omega arith) (inr refl)

-- One thread alone: a whole operation, and the end.
abbrev to : System hundredths → Shared → ThreadStatistics hundredths → Place → System hundredths
to s m t p = record { mem = m; place = put 0 p s.place; stats = put 0 t s.stats }

abbrev locked : System hundredths
locked =
    to (to (initial hundredths (λ _. 0)) idle_memory nothing trying)
      (record idle_memory { flag = true }) nothing acquired

abbrev waited : ThreadStatistics hundredths
waited = add_wait_time hundredths 7 nothing

abbrev noted : ThreadStatistics hundredths
noted = record waited { lock_acquisitions = 1 }

abbrev written : System hundredths
written =
    to
      (to (to (to locked locked.mem waited timed) locked.mem noted writing)
        (record locked.mem { shared_data = put 3 5 (λ _. 0) }) noted counting)
      (record locked.mem { shared_data = put 3 5 (λ _. 0); shared_counter = 1 }) noted leaving

abbrev finished : ThreadStatistics hundredths
finished = record (add_hold_time hundredths 4 noted) { write_operations = 1 }

abbrev last_memory : Shared
last_memory = record written.mem { flag = false }

abbrev looped : System hundredths
looped = to (to written last_memory noted released) last_memory finished looping

abbrev over : System hundredths
over =
    to (record looped { mem = record last_memory { stop = true } })
      (record last_memory { stop = true }) finished ended

written_reached : Reach hundredths 1 written
unfolding ℕ_discrete add_wait_time
written_reached =
    later
      (later
        (later
          (later
            (later (later start (work 0 (omega arith) (again refl)))
              (work 0 (omega arith) (try_free refl)))
            (work 0 (omega arith) (note_wait 7)))
          (work 0 (omega arith) note_acquisition))
        (work 0 (omega arith) (write 3 5 (omega arith))))
      (work 0 (omega arith) count)

over_reached : Reach hundredths 1 over
unfolding ℕ_discrete add_wait_time add_hold_time
over_reached =
    later
      (later
        (later (later written_reached (work 0 (omega arith) unlock))
          (work 0 (omega arith) (note_operation 4)))
        time_over)
      (work 0 (omega arith) (quit refl))

no_lost_update_example : Counted 1 written
no_lost_update_example = no_lost_update written_reached

only_zero : (i : ℕ) → i < 1 → over.place i ≡ ended
unfolding ℕ_discrete
only_zero i l = ground arith

printed_writes_example :
    u64 ((analyze_results hundredths spinlock 1000 (listed 1 over.stats)).totals.total_writes) ≡ 1
printed_writes_example = printed_writes 1000 spinlock over_reached only_zero
