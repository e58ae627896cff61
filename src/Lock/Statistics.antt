-- ===== src/Lock/Statistics.antt =====
-- src/lock_visualizer_cpp.cpp: `ThreadStatistics`, which only its own thread writes.
pub mod Percentiles
use context_switching.Prelude.{
  ℕ, zero, suc, ◌+◌, ◌-◌, ◌*◌, List, [], ◌∷◌, ◌++◌, Option, none, some, ltb, leb, if◌then◌else◌,
  ◌>>=◌, length, get_elem?, is_empty,
}
use context_switching.Prelude.Words.{u64}
use context_switching.Prelude.Double.{Double, literal}
use context_switching.Prelude.Sort.{sort}
use context_switching.Prelude.Percentiles.{percentiles_at, asked}

pub record ThreadStatistics (F : Double) : Type 0 where
  pub lock_acquisitions : ℕ
  pub lock_contentions : ℕ
  pub read_operations : ℕ
  pub write_operations : ℕ
  pub total_wait_time : F.Num
  pub max_wait_time : F.Num
  pub total_hold_time : F.Num
  pub wait_times : List F.Num

module _ (F : Double) where
  open F use {Num, of_nat, add, mul, div, lt, trunc}

  abbrev pub no_statistics : ThreadStatistics F
  no_statistics = record {
    lock_acquisitions = 0;
    lock_contentions = 0;
    read_operations = 0;
    write_operations = 0;
    total_wait_time = of_nat 0;
    max_wait_time = of_nat 0;
    total_hold_time = of_nat 0;
    wait_times = [];
  }

  -- Where no other thread writes, each exchange succeeds in the end, with the value first read.
  unfoldable pub add_wait_time : Num → ThreadStatistics F → ThreadStatistics F
  add_wait_time time s = record s {
    total_wait_time = add s.total_wait_time time;
    max_wait_time = if lt s.max_wait_time time then time else s.max_wait_time;
    wait_times = s.wait_times ++ time ∷ [];
  }

  unfoldable pub add_hold_time : Num → ThreadStatistics F → ThreadStatistics F
  add_hold_time time s = record s { total_hold_time = add s.total_hold_time time }

  pub get_average_wait_time : ThreadStatistics F → Num
  get_average_wait_time s =
      if ltb 0 s.lock_acquisitions
      then div s.total_wait_time (of_nat s.lock_acquisitions)
      else of_nat 0

  pub get_contention_rate : ThreadStatistics F → Num
  get_contention_rate s =
      if ltb 0 s.lock_acquisitions
      then div (of_nat s.lock_contentions) (of_nat s.lock_acquisitions)
      else of_nat 0

  -- `none` is an access out of bounds.
  pub get_wait_time_percentiles : ThreadStatistics F → Option (List Num)
  get_wait_time_percentiles s =
      if is_empty s.wait_times then some [] else percentiles_at F (sort lt s.wait_times) asked
