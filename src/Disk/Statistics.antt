-- ===== src/Disk/Statistics.antt =====
-- src/disk_io_analyzer_cpp.cpp: `IOStatistics`, which only its own thread writes.
use context_switching.Prelude.{
  ℕ, List, [], ◌∷◌, ◌++◌, Option, none, some, Bool, if◌then◌else◌, is_empty, ltb, ◌+◌,
}
use context_switching.Prelude.Int.{ℤ, pos_part}
use context_switching.Prelude.Words.{u64}
use context_switching.Prelude.Double.{Double}
use context_switching.Prelude.Sort.{sort}
use context_switching.Prelude.Percentiles.{percentiles_at, asked}

pub data IoPattern : Type 0 where
  sequential_read sequential_write random_read random_write mixed : IoPattern

pub data IoMode : Type 0 where
  buffered direct synchronous : IoMode

-- `none` is the infinity that `min_latency` starts with.
pub record IoStatistics (F : Double) : Type 0 where
  pub bytes_read : ℕ
  pub bytes_written : ℕ
  pub read_operations : ℕ
  pub write_operations : ℕ
  pub total_time : F.Num
  pub min_latency : Option F.Num
  pub max_latency : F.Num
  pub total_latency : F.Num
  pub latency_samples : List F.Num

module _ (F : Double) where
  open F use {Num, of_nat, add, lt}

  abbrev pub no_statistics : IoStatistics F
  no_statistics = record {
    bytes_read = 0;
    bytes_written = 0;
    read_operations = 0;
    write_operations = 0;
    total_time = of_nat 0;
    min_latency = none;
    max_latency = of_nat 0;
    total_latency = of_nat 0;
    latency_samples = [];
  }

  abbrev pub smaller : Num → Option Num → Option Num
  smaller a none = some a
  smaller a (some b) = if lt a b then some a else some b

  -- Where no other thread writes, each exchange succeeds in the end, with the value first read.
  unfoldable pub add_latency : Num → IoStatistics F → IoStatistics F
  add_latency latency s = record s {
    total_latency = add s.total_latency latency;
    min_latency = smaller latency s.min_latency;
    max_latency = if lt s.max_latency latency then latency else s.max_latency;
    latency_samples = s.latency_samples ++ latency ∷ [];
  }

  -- `none` is an access out of bounds.
  pub get_percentiles : IoStatistics F → Option (List Num)
  get_percentiles s =
      if is_empty s.latency_samples
      then some []
      else percentiles_at F (sort lt s.latency_samples) asked

  -- What a `pread` or `pwrite` that has returned adds.
  unfoldable pub count_transfer : Bool → ℤ → IoStatistics F → IoStatistics F
  count_transfer write result s =
      if ltb 0 (pos_part result)
      then if write
        then record s {
          bytes_written = u64 (s.bytes_written + pos_part result);
          write_operations = u64 (s.write_operations + 1);
        }
        else record s {
          bytes_read = u64 (s.bytes_read + pos_part result);
          read_operations = u64 (s.read_operations + 1);
        }
      else s
