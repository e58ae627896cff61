-- ===== src/Disk/Metrics.antt =====
-- src/disk_io_analyzer_cpp.cpp: `calculate_aggregate_metrics`, and what the tests print of it.
pub mod Totals
use context_switching.Prelude.{
  ℕ, ◌+◌, ◌*◌, Bool, true, false, List, [], ◌∷◌, Option, none, some, ltb, if◌then◌else◌, accumulate,
}
use context_switching.Prelude.Words.{u64}
use context_switching.Prelude.Double.{Double}
use context_switching.Disk.Statistics.{IoStatistics, smaller}
use context_switching.Disk.Files.{mb}

-- `total_latency` is a variable of the function.
pub record AggregateMetrics (F : Double) : Type 0 where
  pub total_time : F.Num
  pub total_read_bytes : ℕ
  pub total_write_bytes : ℕ
  pub total_read_ops : ℕ
  pub total_write_ops : ℕ
  pub throughput_mbps : F.Num
  pub iops : F.Num
  pub avg_latency : F.Num
  pub min_latency : Option F.Num
  pub max_latency : F.Num
  pub total_latency : F.Num

module _ (F : Double) where
  open F use {Num, of_nat, add, sub, mul, div, lt}

  abbrev pub no_metrics : AggregateMetrics F
  no_metrics = record {
    total_time = of_nat 0;
    total_read_bytes = 0;
    total_write_bytes = 0;
    total_read_ops = 0;
    total_write_ops = 0;
    throughput_mbps = of_nat 0;
    iops = of_nat 0;
    avg_latency = of_nat 0;
    min_latency = none;
    max_latency = of_nat 0;
    total_latency = of_nat 0;
  }

  abbrev pub larger : Num → Num → Num
  larger a b = if lt b a then a else b

  abbrev least : Option Num → Option Num → Option Num
  least none m = m
  least (some a) m = smaller F a m

  -- One round of the loop over the statistics.
  pub add_stat : AggregateMetrics F → IoStatistics F → AggregateMetrics F
  add_stat m s = record m {
    total_read_bytes = u64 (m.total_read_bytes + s.bytes_read);
    total_write_bytes = u64 (m.total_write_bytes + s.bytes_written);
    total_read_ops = u64 (m.total_read_ops + s.read_operations);
    total_write_ops = u64 (m.total_write_ops + s.write_operations);
    total_latency = add m.total_latency s.total_latency;
    total_time = larger s.total_time m.total_time;
    min_latency = least s.min_latency m.min_latency;
    max_latency = larger s.max_latency m.max_latency;
  }

  set_rates : AggregateMetrics F → AggregateMetrics F
  set_rates m =
      let total_ops = u64 (m.total_read_ops + m.total_write_ops) in
      let total_bytes = u64 (m.total_read_bytes + m.total_write_bytes) in
      if lt (of_nat 0) m.total_time
      then record m {
        throughput_mbps = div (div (of_nat total_bytes) (of_nat mb)) m.total_time;
        iops = div (of_nat total_ops) m.total_time;
      }
      else m

  set_latency : AggregateMetrics F → AggregateMetrics F
  set_latency m =
      let total_ops = u64 (m.total_read_ops + m.total_write_ops) in
      if ltb 0 total_ops
      then record m { avg_latency = div m.total_latency (of_nat total_ops) }
      else m

  pub calculate_aggregate_metrics : List (IoStatistics F) → AggregateMetrics F
  unfolding add_stat set_rates set_latency
  calculate_aggregate_metrics stats = set_latency (set_rates (accumulate add_stat no_metrics stats))

  -- What `run_sync_overhead_analysis` prints last: the overhead in milliseconds, and the ratio.
  pub sync_overhead : AggregateMetrics F → AggregateMetrics F → Num × Num
  sync_overhead buffered sync = (
    mul (sub sync.avg_latency buffered.avg_latency) (of_nat 1000),
    div buffered.throughput_mbps sync.throughput_mbps,
  )

  -- The rates that `run_io_mode_comparison` prints.
  pub mode_rates : AggregateMetrics F → Num × Num
  mode_rates m = (
    div (div (of_nat m.total_read_bytes) (of_nat mb)) m.total_time,
    div (div (of_nat m.total_write_bytes) (of_nat mb)) m.total_time,
  )
