-- ===== src/Scheduler/Workload.antt =====
-- src/scheduler_analyzer_cpp.cpp: `WorkloadGenerator`. A workload counts its operations in batches
-- until the stop flag is set; `n` is the number of rounds that it makes before. The numbers that
-- the rounds compute with are not kept.
pub mod Counts
use context_switching.Prelude.{
  ℕ, zero, suc, ◌+◌, ◌*◌, ◌/◌, ◌%◌, Bool, true, false, List, [], ◌∷◌, ◌==◌, if◌then◌else◌,
}
use context_switching.Prelude.Words.{u64, increments, rounds}
use context_switching.Prelude.Double.{Double}
use context_switching.Scheduler.Stats.{ThreadStats}

-- A shared counter, and the operations not added to it yet.
pub record Batch : Type 0 where
  pub counter : ℕ
  pub operations : ℕ

pub cpu_round : Batch → Batch
cpu_round b =
    let operations = increments 1000 b.operations in
    if operations % 100000 == 0
    then record { counter = u64 (b.counter + 100000); operations = 0 }
    else record b { operations = operations }

pub io_round : Batch → Batch
io_round b =
    let operations = u64 (b.operations + 1) in
    if operations % 100 == 0
    then record { counter = u64 (b.counter + 100); operations = 0 }
    else record b { operations = operations }

abbrev buffer_size : ℕ
buffer_size = 1024 * 1024

-- One operation for each 64 bytes of the buffer, then a thousand at random places.
pub memory_round : Batch → Batch
memory_round b =
    let operations = increments 1000 (increments (buffer_size / 64) b.operations) in
    if operations % 10000 == 0
    then record { counter = u64 (b.counter + 10000); operations = 0 }
    else record b { operations = operations }

-- The batches of CPU and of I/O operations.
pub record MixedBatch : Type 0 where
  pub cpu : Batch
  pub io : Batch

-- `work` is the outcome of `real_dist_(rng_) < 0.7`.
pub mixed_work_part : MixedBatch → Bool → MixedBatch
mixed_work_part b work =
    if work
    then record b { cpu = record b.cpu { operations = increments 100 b.cpu.operations } }
    else record b { io = record b.io { operations = u64 (b.io.operations + 1) } }

pub flush_all : Batch → Batch
flush_all b = record { counter = u64 (b.counter + b.operations); operations = 0 }

pub mixed_flush : MixedBatch → MixedBatch
mixed_flush b =
    if u64 (b.cpu.operations + b.io.operations) % 1000 == 0
    then record { cpu = flush_all b.cpu; io = flush_all b.io }
    else b

pub mixed_rounds : List Bool → MixedBatch → MixedBatch
unfolding mixed_work_part mixed_flush flush_all
mixed_rounds [] b = b
mixed_rounds (work ∷ ws) b = mixed_rounds ws (mixed_flush (mixed_work_part b work))

-- The last `fetch_add`, behind the loop.
abbrev pub total_count : Batch → ℕ
total_count b = u64 (b.counter + b.operations)

abbrev pub batch : ℕ → Batch
batch c = record { counter = c; operations = 0 }

module _ {F : Double} where
  pub cpu_intensive_work : ℕ → ThreadStats F → ThreadStats F
  cpu_intensive_work n s = record s {
    cpu_operations = total_count (rounds cpu_round n (batch s.cpu_operations));
  }

  pub io_intensive_work : ℕ → ThreadStats F → ThreadStats F
  io_intensive_work n s = record s {
    io_operations = total_count (rounds io_round n (batch s.io_operations));
  }

  pub memory_intensive_work : ℕ → ThreadStats F → ThreadStats F
  memory_intensive_work n s = record s {
    memory_operations = total_count (rounds memory_round n (batch s.memory_operations));
  }

  pub mixed_work : List Bool → ThreadStats F → ThreadStats F
  mixed_work ws s =
      let b =
        mixed_rounds ws (record { cpu = batch s.cpu_operations; io = batch s.io_operations }) in
      record s { cpu_operations = total_count b.cpu; io_operations = total_count b.io }
