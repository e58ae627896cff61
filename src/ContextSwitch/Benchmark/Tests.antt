-- ===== src/ContextSwitch/Benchmark/Tests.antt =====
-- src/context_switch_cpp.cpp, `ContextSwitchBenchmark`: runs in which the mapping fails.
use native.Mathlib.Decide.{ℕ_discrete}
use context_switching.Prelude.{ℕ, ◌≡◌, refl, true, false, List, [], ◌∷◌, Option, none, some}
use context_switching.Prelude.Double.{hundredths}
use context_switching.ContextSwitch.Statistics.{ContextSwitchStats}
use context_switching.ContextSwitch.Resources.{Kernel, ShmAnswers, SharedMemory, destroy_shared}
use context_switching.ContextSwitch.Benchmark.{Method, pipe_based_ipc, thread_switching, fastest}

abbrev with_median : ℕ → ContextSwitchStats hundredths
with_median n = record {
  times = n ∷ [];
  mean = n;
  median = n;
  min_time = n;
  max_time = n;
  std_dev = 0;
  percentile_95 = n;
  percentile_99 = n;
}

abbrev quiet : Kernel
quiet = record { open_fds = λ _. false; mapped = λ _. false; named = false }

abbrev no_mapping : ShmAnswers
no_mapping = record { fd = some 7; truncates = true; addr = none }

abbrev both_results : List (Method × ContextSwitchStats hundredths)
both_results = (pipe_based_ipc, with_median 500) ∷ (thread_switching, with_median 200) ∷ []

named_fastest : fastest hundredths both_results ≡ some (thread_switching, with_median 200)
unfolding fastest
named_fastest = refl

-- A mapping that two objects hold, as after the defaulted move, is released twice.
abbrev shared_twice : SharedMemory
shared_twice = record { addr = 8192; fd = 7 }

abbrev after_one : Kernel → Option Kernel
after_one k = elim (destroy_shared shared_twice k) [
  | none ↦ none
  | some k1 ↦ destroy_shared shared_twice k1
]

abbrev holding : Kernel
holding = record { open_fds = λ _. true; mapped = λ _. true; named = true }

released_twice : after_one holding ≡ none
unfolding destroy_shared ℕ_discrete
released_twice = refl
