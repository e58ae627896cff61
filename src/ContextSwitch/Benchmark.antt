-- ===== src/ContextSwitch/Benchmark.antt =====
-- src/context_switch_cpp.cpp: the resources of the measurements, and `ContextSwitchBenchmark`. What the
-- loops of a measurement return, the calculated statistics or an exception, is an input.
pub mod Outcome
pub mod Fastest
mod Tests
use context_switching.Prelude.{
  ℕ, Bool, true, false, ◌&&◌, List, [], ◌∷◌, ◌++◌, Option, none, some, if◌then◌else◌, ◌>>=◌,
  accumulate,
}
use context_switching.Prelude.Double.{Double}
use context_switching.ContextSwitch.Statistics.{ContextSwitchStats}
use context_switching.ContextSwitch.Resources.{
  Kernel, PipeRaii, SharedMemory, ShmAnswers, create_pipe, destroy_pipe, create_shared,
  destroy_shared,
}

pub data Method : Type 0 where
  pipe_based_ipc shared_memory thread_switching : Method

module _ {ℓ} {A : Type ℓ} where
  -- What follows a fork that succeeds.
  abbrev pub after_fork : Bool → Option A → Option A
  after_fork true measured = measured
  after_fork false measured = none

  -- The pipes are destroyed in the order opposite to their creation, also by an exception.
  unfoldable pub measure_with_pipes :
      Option (ℕ × ℕ) → Option (ℕ × ℕ) → Bool → Option A → Kernel → Option (Kernel × Option A)
  measure_with_pipes first second forks measured k =
      let (pipe1, k1) = create_pipe first k in
      let (pipe2, k2) = create_pipe second k1 in
      let stats = if pipe1.valid && pipe2.valid then after_fork forks measured else none in
      do k3 ← destroy_pipe pipe2 k2; k4 ← destroy_pipe pipe1 k3; some (k4, stats)

  abbrev leave_shared : Bool → Option A → Kernel → Option SharedMemory → Option (Kernel × Option A)
  leave_shared forks measured k none = some (k, none)
  leave_shared forks measured k (some shm) = do
    after ← destroy_shared shm k
    some (after, after_fork forks measured)

  unfoldable pub measure_with_shared_memory :
      ShmAnswers → Bool → Option A → Kernel → Option (Kernel × Option A)
  measure_with_shared_memory answers forks measured k = do
    (created, shm) ← create_shared answers k
    leave_shared forks measured created shm

  -- A `try` block: an exception adds no result.
  abbrev pub add_result : Method → Option A → List (Method × A) → List (Method × A)
  add_result method none results = results
  add_result method (some stats) results = results ++ (method, stats) ∷ []

  -- What `run_all_tests` collects.
  unfoldable pub run_all_tests :
      (Kernel → Option (Kernel × Option A))
      → (Kernel → Option (Kernel × Option A))
      → Option A
      → Kernel
      → Option (Kernel × List (Method × A))
  run_all_tests pipes shared threads k = do
    (k1, a) ← pipes k
    (k2, b) ← shared k1
    some (
      k2,
      add_result thread_switching threads
          (add_result shared_memory b (add_result pipe_based_ipc a [])),
    )

module _ {ℓ} {A : Type ℓ} (less : A → A → Bool) where
  -- `std::min_element`: the first of the least.
  abbrev pub smaller : A → A → A
  smaller best a = if less a best then a else best

  abbrev pub min_element : List A → Option A
  min_element [] = none
  min_element (a ∷ rest) = some (accumulate smaller a rest)

-- The method that `print_summary` names, with its statistics.
unfoldable pub fastest :
    (F : Double) → List (Method × ContextSwitchStats F) → Option (Method × ContextSwitchStats F)
fastest F = min_element (λ a b. F.lt a.1.median b.1.median)
