-- ===== src/ContextSwitch/Benchmark/Outcome.antt =====
-- src/context_switch_cpp.cpp: what the measurements over pipes and over shared memory return, and that
-- they give everything back.
use context_switching.Prelude.{ℕ, Bool, true, false, ◌&&◌, List, [], Option, none}
use context_switching.Prelude.Double.{Double}
use context_switching.ContextSwitch.Resources.{ShmAnswers}
use context_switching.ContextSwitch.Resources.Scopes.{shm_succeeds, is_pipe}
use context_switching.ContextSwitch.Benchmark.{
  Method, pipe_based_ipc, shared_memory, thread_switching, add_result,
}

-- The statistics, if every call before the measurement succeeds.
abbrev pub only_if {ℓ} : {A : Type ℓ} → Bool → Option A → Option A
only_if true measured = measured
only_if false measured = none

-- What the three measurements come to when it is known which calls succeed.
abbrev pub collected {ℓ} :
    {A : Type ℓ}
    → Option (ℕ × ℕ)
    → Option (ℕ × ℕ)
    → ShmAnswers
    → Bool
    → Bool
    → Option A
    → Option A
    → Option A
    → List (Method × A)
collected first second a forks forks_again by_pipes by_memory by_threads =
    add_result thread_switching by_threads (
      add_result shared_memory
        (only_if (shm_succeeds a.fd a.truncates a.addr && forks_again) by_memory)
        (add_result pipe_based_ipc (only_if (is_pipe first && is_pipe second && forks) by_pipes)
          []))
