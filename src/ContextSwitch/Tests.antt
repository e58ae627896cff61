-- ===== src/ContextSwitch/Tests.antt =====
-- Concrete runs of the summary, the histogram and the two threads.
use context_switching.Prelude.{
  ◌+◌, ◌≤◌, ◌<◌, ◌≡◌, ◌⊎◌, refl, [], ◌∷◌, some, arith, length, true, All,
}
use context_switching.Prelude.Int.{pos}
use context_switching.Prelude.Double.{
  hundredths, hundredths-IsOrdered, hundredths-IsScaling, hundredths-IsInterpolating,
}
use context_switching.ContextSwitch.Statistics.{ContextSwitchStats, calculate}
use context_switching.ContextSwitch.Statistics.Histogram.{Outcome, print_histogram-Outcome}
use context_switching.ContextSwitch.PingPong.{
  System, Reach, start, later, Step, call, answer, stamp, give, sample, finish, begin, hit, go,
  stamp_back, hand, exited, enter,
}
use context_switching.ContextSwitch.PingPong.Clock.{IsTime, total}
use context_switching.ContextSwitch.PingPong.Progress.{work, Spins, IsFinished, Run}
use context_switching.ContextSwitch.PingPong.Safety.{measured_all, Step-Advances, can_finish}

abbrev measured : ContextSwitchStats hundredths
measured = record {
  times = 300 ∷ 100 ∷ 250 ∷ 900 ∷ 120 ∷ 130 ∷ 140 ∷ 150 ∷ 160 ∷ 170 ∷ 180 ∷ [];
  mean = 0;
  median = 0;
  min_time = 100;
  max_time = 900;
  std_dev = 0;
  percentile_95 = 0;
  percentile_99 = 0;
}

print_histogram-Outcome_example :
    (r : ContextSwitchStats hundredths) × (calculate hundredths measured ≡ some r)
    × Outcome hundredths 11 r
print_histogram-Outcome_example =
    print_histogram-Outcome hundredths hundredths-IsOrdered hundredths-IsScaling
      hundredths-IsInterpolating measured (omega arith) (omega arith)

-- One iteration, up to the answer of the thread.
abbrev answered : (s : System) × Reach true 1 10 s
answered = (
  _,
  later
      (later
        (later
          (later
            (later
              (later (later start (call (stamp 12 (omega arith) (λ _. omega arith)))) (call give))
              (answer (begin (omega arith))))
            (answer (hit refl)))
          (answer (go refl)))
        (answer (stamp_back 17 (λ _. omega arith))))
      (answer hand),
)

-- The caller waits, and the thread is about to take its stamp.
abbrev stamping_now : (s : System) × Reach true 1 10 s
stamping_now = (
  _,
  later
      (later
        (later (later (later start (call (stamp 12 (omega arith) (λ _. omega arith)))) (call give))
          (answer (begin (omega arith))))
        (answer (hit refl)))
      (answer (go refl)),
)

abbrev joined : (s : System) × Reach true 1 10 s
joined = (_, later (later answered.1 (call (sample refl))) (call (finish (omega arith))))

measured_all_example :
    (length joined.0.mem.times ≡ 1)
    × All IsTime joined.0.mem.times
    × (10 + total joined.0.mem.times ≤ joined.0.mem.clock)
    × ((joined.0.peer ≡ enter 1) ⊎ (joined.0.peer ≡ exited))
measured_all_example = measured_all joined.1 refl

joined_times : joined.0.mem.times ≡ pos 5 ∷ []
joined_times = refl

abbrev sampled : (s : System) × Step true 1 answered.0 s
sampled = (_, call (sample refl))

Step-Advances_example : (work 1 sampled.0 < work 1 answered.0) ⊎ Spins 1 answered.0 sampled.0
Step-Advances_example = Step-Advances answered.1 sampled.1

can_finish_example :
    (t : System) × Run true 1 answered.0 t × IsFinished t × (length t.mem.times ≡ 1)
can_finish_example = can_finish answered.1
