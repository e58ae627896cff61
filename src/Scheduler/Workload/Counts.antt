-- ===== src/Scheduler/Workload/Counts.antt =====
-- src/scheduler_analyzer_cpp.cpp: how the counters of the workloads relate to the operations done.
use context_switching.Prelude.{
  ℕ, suc, ◌+◌, ◌*◌, ◌/◌, ◌%◌, ◌^◌, ◌<◌, ◌≡◌, refl, Bool, true, false, List, [], ◌∷◌, arith,
}
use context_switching.Prelude.Words.{u64, increments, increments_lem, rounds, rounds_inv}
use context_switching.Prelude.Double.{Double}
use context_switching.Scheduler.Stats.{ThreadStats}
use context_switching.Scheduler.Workload.{
  Batch, cpu_round, io_round, memory_round, MixedBatch, mixed_work_part, flush_all, mixed_flush,
  mixed_rounds, batch, cpu_intensive_work, io_intensive_work, memory_intensive_work, mixed_work,
}

-- After `i` rounds of `step` operations from the count `c` nothing is lost, and less than `size`
-- operations wait.
abbrev Counted : (step size c : ℕ) → ℕ → Batch → Type 0
Counted step size c i b =
    (b.counter < 2 ^ 64)
    × (b.operations < size)
    × (b.operations % step ≡ 0)
    × (u64 (b.counter + b.operations) ≡ u64 (c + step * i))

cpu_round-Counted :
    (c i : ℕ) (b : Batch) → Counted 1000 100000 c i b → Counted 1000 100000 c (suc i) (cpu_round b)
unfolding cpu_round
cpu_round-Counted c i b h = ground (arith, increments_lem 1000 b.operations)

io_round-Counted :
    (c i : ℕ) (b : Batch) → Counted 1 100 c i b → Counted 1 100 c (suc i) (io_round b)
unfolding io_round
io_round-Counted c i b h = ground arith

-- A round is 17384 operations; 1250 rounds are the first to be a multiple of 10000.
abbrev Recorded : (c : ℕ) → ℕ → Batch → Type 0
Recorded c i b =
    (b.operations ≡ 17384 * (i % 1250)) × (u64 b.counter ≡ u64 (c + 10000 * (i / 1250)))

-- 17384 j is a multiple of 10000 only where j is one of 1250.
full_batch : (j : ℕ) → (17384 * j) % 10000 ≡ 0 → j % 1250 ≡ 0
full_batch j h = omega arith

memory_round-Recorded : (c i : ℕ) (b : Batch) → Recorded c i b → Recorded c (suc i) (memory_round b)
unfolding memory_round
memory_round-Recorded c i b h = ground (
  arith,
  increments_lem 16384 b.operations,
  increments_lem 1000 (increments 16384 b.operations),
  full_batch (suc (i % 1250)),
)

-- The rounds of CPU work, and those of I/O work.
abbrev pub works : List Bool → ℕ
works [] = 0
works (true ∷ ws) = suc (works ws)
works (false ∷ ws) = works ws

abbrev pub waits : List Bool → ℕ
waits [] = 0
waits (true ∷ ws) = waits ws
waits (false ∷ ws) = suc (waits ws)

-- What two batches have counted so far, with their operations below 2 ^ 64.
record Sums (b : MixedBatch) (cpu io : ℕ) : Type 0 where
  fit : (b.cpu.operations < 2 ^ 64) × (b.io.operations < 2 ^ 64)
  cpu_sum : u64 (b.cpu.counter + b.cpu.operations) ≡ u64 cpu
  io_sum : u64 (b.io.counter + b.io.operations) ≡ u64 io

mixed_flush-Sums : {cpu io : ℕ} (b : MixedBatch) → Sums b cpu io → Sums (mixed_flush b) cpu io
unfolding mixed_flush flush_all
mixed_flush-Sums b h = ground arith

mixed_work_part-Sums :
    {cpu io : ℕ} (b : MixedBatch)
    → Sums b cpu io
    → Sums (mixed_work_part b true) (cpu + 100) io × Sums (mixed_work_part b false) cpu (io + 1)
unfolding mixed_work_part
mixed_work_part-Sums b h = ground (arith, increments_lem 100 b.cpu.operations)

mixed_rounds-Sums :
    (ws : List Bool) (b : MixedBatch) (cpu io : ℕ)
    → Sums b cpu io
    → Sums (mixed_rounds ws b) (cpu + 100 * works ws) (io + waits ws)
unfolding mixed_rounds
mixed_rounds-Sums [] b cpu io h = ground arith
mixed_rounds-Sums (true ∷ ws) b cpu io h =
    let part = (mixed_work_part-Sums b h).0 in
    let next = mixed_rounds-Sums ws _ (cpu + 100) io (mixed_flush-Sums _ part) in
    record { fit = next.fit; cpu_sum = omega (arith, next.cpu_sum); io_sum = next.io_sum }
mixed_rounds-Sums (false ∷ ws) b cpu io h =
    let part = (mixed_work_part-Sums b h).1 in
    let next = mixed_rounds-Sums ws _ cpu (io + 1) (mixed_flush-Sums _ part) in
    record { fit = next.fit; cpu_sum = next.cpu_sum; io_sum = omega (arith, next.io_sum) }

module _ {F : Double} (s : ThreadStats F) where
  -- For each round the CPU workload adds a thousand operations to its counter, wherever the flag
  -- is set in a batch, and leaves the other two counters alone.
  pub cpu_work_counted :
      (n : ℕ)
      → s.cpu_operations < 2 ^ 64
      → let r = cpu_intensive_work n s in
        (r.cpu_operations ≡ u64 (s.cpu_operations + 1000 * n))
        × (r.io_operations ≡ s.io_operations)
        × (r.memory_operations ≡ s.memory_operations)
  unfolding cpu_intensive_work
  cpu_work_counted n h =
      let end =
        rounds_inv cpu_round (Counted 1000 100000 s.cpu_operations)
          (cpu_round-Counted s.cpu_operations) n 0 n (batch s.cpu_operations) (omega arith)
          (omega arith) in
      (end.3, refl, refl)

  -- For each round the I/O workload adds one operation to its counter, and leaves the other two
  -- counters alone.
  pub io_work_counted :
      (n : ℕ)
      → s.io_operations < 2 ^ 64
      → let r = io_intensive_work n s in
        (r.io_operations ≡ u64 (s.io_operations + n))
        × (r.cpu_operations ≡ s.cpu_operations)
        × (r.memory_operations ≡ s.memory_operations)
  unfolding io_intensive_work
  io_work_counted n h =
      let end =
        rounds_inv io_round (Counted 1 100 s.io_operations) (io_round-Counted s.io_operations) n 0 n
          (batch s.io_operations) (omega arith) (omega arith) in
      (omega (arith, end), refl, refl)

  memory_work-Recorded :
      (n : ℕ) → Recorded s.memory_operations n (rounds memory_round n (batch s.memory_operations))
  memory_work-Recorded n =
      rounds_inv memory_round (Recorded s.memory_operations)
        (memory_round-Recorded s.memory_operations) n 0 n (batch s.memory_operations) (omega arith)
        (omega arith)

  -- What the counter of the memory workload shows after `n` rounds.
  pub memory_work_counted :
      (n : ℕ)
      → let r = memory_intensive_work n s in
        (r.memory_operations
          ≡ u64 (s.memory_operations + (10000 * (n / 1250) + 17384 * (n % 1250))))
        × (r.cpu_operations ≡ s.cpu_operations)
        × (r.io_operations ≡ s.io_operations)
  unfolding memory_intensive_work
  memory_work_counted n = (omega (arith, memory_work-Recorded n), refl, refl)

  -- A round of the memory workload does 17384 operations. At each 1250th round it adds 10000 to the
  -- counter and drops the 21730000 operations done since: while nothing wraps, the count falls short
  -- of the operations by 21720000 for each 1250 rounds, and by nothing before the first of these.
  memory_work_shortfall :
      (n : ℕ)
      → s.memory_operations + 17384 * n < 2 ^ 64
      → (memory_intensive_work n s).memory_operations + 21720000 * (n / 1250)
        ≡ s.memory_operations + 17384 * n
  memory_work_shortfall n h = omega (arith, memory_work_counted n)

  -- The mixed workload adds a hundred CPU operations for each round of CPU work and one I/O
  -- operation for each other round, and leaves the memory counter alone.
  pub mixed_work_counted :
      (ws : List Bool)
      → let r = mixed_work ws s in
        (r.cpu_operations ≡ u64 (s.cpu_operations + 100 * works ws))
        × (r.io_operations ≡ u64 (s.io_operations + waits ws))
        × (r.memory_operations ≡ s.memory_operations)
  unfolding mixed_work
  mixed_work_counted ws =
      let sums =
        mixed_rounds-Sums ws (record { cpu = batch s.cpu_operations; io = batch s.io_operations })
          s.cpu_operations s.io_operations
          (record { fit = omega arith; cpu_sum = omega arith; io_sum = omega arith }) in
      (sums.cpu_sum, sums.io_sum, refl)
