-- ===== src/Network/Report.antt =====
-- src/network_io_benchmarker_cpp.cpp: what the tests print, from the statistics.
pub mod Total
use context_switching.Prelude.{
  ℕ, ◌+◌, ◌*◌, ◌/◌, Bool, true, false, List, Option, none, some, if◌then◌else◌, ltb, ◌>>=◌,
}
use context_switching.Prelude.Words.{u64}
use context_switching.Prelude.Double.{Double}
use context_switching.Network.Statistics.{NetworkStats, get_percentiles}

abbrev pub kb : ℕ
kb = 1024

abbrev pub mb : ℕ
mb = 1048576

-- A number of megabytes, or of kilobytes.
pub data Label : Type 0 where
  megabytes kilobytes : ℕ → Label

abbrev pub size_label : ℕ → Label
size_label size = if ltb size mb then kilobytes (size / kb) else megabytes (size / mb)

module _ (F : Double) where
  open F use {Num, of_nat, mul, div, lt}

  -- A line of the tables.
  pub record Rates : Type 0 where
    pub throughput : Num
    pub msg_per_sec : Num
    pub avg_latency : Num

  abbrev in_mb : ℕ → Num
  in_mb bytes = div (of_nat bytes) (of_nat mb)

  abbrev pub has_time : NetworkStats F → Bool
  has_time s = lt (of_nat 0) s.total_time

  abbrev pub megabytes_per_sec : NetworkStats F → Num
  megabytes_per_sec s = div (in_mb (u64 (s.bytes_sent + s.bytes_received))) s.total_time

  abbrev pub messages_per_sec : NetworkStats F → Num
  messages_per_sec s = div (of_nat (u64 (s.messages_sent + s.messages_received))) s.total_time

  abbrev pub average : NetworkStats F → Num
  average s = div s.total_latency (of_nat s.latency_count)

  abbrev in_ms : Num → Num
  in_ms a = mul a (of_nat 1000)

  pub rates : NetworkStats F → Rates
  rates s = record {
    throughput = if has_time s then megabytes_per_sec s else of_nat 0;
    msg_per_sec = if has_time s then messages_per_sec s else of_nat 0;
    avg_latency = if ltb 0 s.latency_count then in_ms (average s) else of_nat 0;
  }

  -- The part on latencies, where there are some; an infinite minimum is `none`.
  pub record Latencies : Type 0 where
    pub average_ms : Num
    pub min_ms : Option Num
    pub max_ms : Num
    pub percentiles_ms : Option (List Num)

  pub record Printed : Type 0 where
    pub duration : Num
    pub messages_sent : ℕ
    pub messages_received : ℕ
    pub mb_sent : Num
    pub mb_received : Num
    pub per_second : Option (Num × Num)
    pub latencies : Option Latencies

  abbrev min_in_ms : Option Num → Option Num
  min_in_ms none = none
  min_in_ms (some a) = some (in_ms a)

  abbrev pub latencies_of : NetworkStats F → Option (List Num) → Latencies
  latencies_of s found = record {
    average_ms = in_ms (average s);
    min_ms = min_in_ms s.min_latency;
    max_ms = in_ms s.max_latency;
    percentiles_ms = found;
  }

  -- `none` is an access out of bounds.
  unfoldable pub print_latencies : Bool → NetworkStats F → Option (Option Latencies)
  print_latencies verbose s =
      if ltb 0 s.latency_count
      then if verbose
        then (get_percentiles F s >>= λ found. some (some (latencies_of s (some found))))
        else some (some (latencies_of s none))
      else some none

  abbrev pub printed_with : NetworkStats F → Option Latencies → Printed
  printed_with s latencies = record {
    duration = s.total_time;
    messages_sent = s.messages_sent;
    messages_received = s.messages_received;
    mb_sent = in_mb s.bytes_sent;
    mb_received = in_mb s.bytes_received;
    per_second = if has_time s then some (megabytes_per_sec s, messages_per_sec s) else none;
    latencies = latencies;
  }

  unfoldable pub print_statistics : Bool → NetworkStats F → Option Printed
  unfolding print_latencies
  print_statistics verbose s = do
    latencies ← print_latencies verbose s
    some (printed_with s latencies)
