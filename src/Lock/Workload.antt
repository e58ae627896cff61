-- ===== src/Lock/Workload.antt =====
-- src/lock_visualizer_cpp.cpp: the kinds of lock and of workload, and the choice of an operation.
use context_switching.Prelude.{ℕ, Bool, true, false, if◌then◌else◌}
use context_switching.Prelude.Double.{Double, literal}

pub data LockType : Type 0 where
  mutex recursive_mutex shared_mutex spinlock adaptive_mutex : LockType

pub data WorkloadPattern : Type 0 where
  balanced read_heavy write_heavy thundering_herd random bursty : WorkloadPattern

-- `is_shared_lockable`
abbrev pub is_shared_lockable : LockType → Bool
is_shared_lockable shared_mutex = true
is_shared_lockable _ = false

pub data Operation : Type 0 where
  reading writing : Operation

module _ (F : Double) where
  -- In hundredths, how often the pattern reads.
  abbrev pub read_share : WorkloadPattern → ℕ
  read_share read_heavy = 80
  read_share write_heavy = 20
  read_share balanced = 50
  read_share thundering_herd = 10
  read_share random = 60
  read_share bursty = 40

  -- `r` is drawn from the numbers from 0 to 1.
  unfoldable pub determine_operation_type : WorkloadPattern → F.Num → Bool
  determine_operation_type pattern r = F.lt r (literal F (read_share pattern) 100)

  abbrev operation_of : Bool → Operation
  operation_of true = reading
  operation_of false = writing

  -- What one round of `worker_thread` performs.
  unfoldable pub operation : LockType → WorkloadPattern → F.Num → Operation
  operation lock pattern r =
      if is_shared_lockable lock then operation_of (determine_operation_type pattern r) else writing
