-- ===== src/Scheduler/Stats.antt =====
-- src/scheduler_analyzer_cpp.cpp: `ThreadStats`, the counters of one thread.
use context_switching.Prelude.{ℕ}
use context_switching.Prelude.Int.{ℤ, pos}
use context_switching.Prelude.Double.{Double}

pub data WorkloadType : Type 0 where
  cpu_intensive io_intensive mixed memory_intensive : WorkloadType

-- The counters are `uint64_t`. A copy for the analysis has the same fields.
pub record ThreadStats (F : Double) : Type 0 where
  pub cpu_operations : ℕ
  pub io_operations : ℕ
  pub memory_operations : ℕ
  pub cpu_time : F.Num
  pub wall_time : F.Num
  pub context_switches : ℕ
  pub voluntary_switches : ℕ
  pub involuntary_switches : ℕ
  pub thread_id : ℕ
  pub nice_value : ℤ
  pub workload_type : WorkloadType
  pub fairness_score : F.Num

-- The initial values of the fields, with the number of the thread.
abbrev pub initial_stats : (F : Double) → ℕ → ThreadStats F
initial_stats F i = record {
  cpu_operations = 0;
  io_operations = 0;
  memory_operations = 0;
  cpu_time = F.of_nat 0;
  wall_time = F.of_nat 0;
  context_switches = 0;
  voluntary_switches = 0;
  involuntary_switches = 0;
  thread_id = i;
  nice_value = pos 0;
  workload_type = cpu_intensive;
  fairness_score = F.of_nat 0;
}
