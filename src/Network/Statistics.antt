-- ===== src/Network/Statistics.antt =====
-- src/network_io_benchmarker_cpp.cpp: `NetworkStats`. Each has one writer, the thread of its client or
-- of its server.
use context_switching.Prelude.{
  ℕ, ◌+◌, ◌-◌, List, [], ◌∷◌, ◌++◌, Option, none, some, if◌then◌else◌, is_empty, leb, length,
  get_elem?, ◌>>=◌,
}
use context_switching.Prelude.Words.{u64}
use context_switching.Prelude.Double.{Double, literal}
use context_switching.Prelude.Sort.{sort}

-- `none` is the infinity that `min_latency` starts with.
pub record NetworkStats (F : Double) : Type 0 where
  pub bytes_sent : ℕ
  pub bytes_received : ℕ
  pub messages_sent : ℕ
  pub messages_received : ℕ
  pub total_time : F.Num
  pub min_latency : Option F.Num
  pub max_latency : F.Num
  pub total_latency : F.Num
  pub latency_count : ℕ
  pub latency_samples : List F.Num

-- In thousandths.
abbrev pub p_values : List ℕ
p_values = 500 ∷ 750 ∷ 900 ∷ 950 ∷ 990 ∷ 999 ∷ []

module _ (F : Double) where
  open F use {Num, of_nat, add, mul, lt, trunc}

  abbrev pub unused : NetworkStats F
  unused = record {
    bytes_sent = 0;
    bytes_received = 0;
    messages_sent = 0;
    messages_received = 0;
    total_time = of_nat 0;
    min_latency = none;
    max_latency = of_nat 0;
    total_latency = of_nat 0;
    latency_count = 0;
    latency_samples = [];
  }

  abbrev lowered : Num → Option Num → Option Num
  lowered latency none = some latency
  lowered latency (some least) = if lt latency least then some latency else some least

  -- Where no other thread writes, each exchange succeeds in the end, with the value first read.
  unfoldable pub add_latency_sample : Num → NetworkStats F → NetworkStats F
  add_latency_sample latency s = record s {
    total_latency = add s.total_latency latency;
    latency_count = u64 (s.latency_count + 1);
    min_latency = lowered latency s.min_latency;
    max_latency = if lt s.max_latency latency then latency else s.max_latency;
    latency_samples = s.latency_samples ++ latency ∷ [];
  }

  unfoldable pub count_sent : ℕ → NetworkStats F → NetworkStats F
  count_sent n s = record s {
    bytes_sent = u64 (s.bytes_sent + n);
    messages_sent = u64 (s.messages_sent + 1);
  }

  unfoldable pub count_received : ℕ → NetworkStats F → NetworkStats F
  count_received n s = record s {
    bytes_received = u64 (s.bytes_received + n);
    messages_received = u64 (s.messages_received + 1);
  }

  unfoldable pub place : ℕ → ℕ → ℕ
  place size p =
      let index = trunc (mul (literal F p 1000) (of_nat size)) in
      if leb size index then size - 1 else index

  unfoldable pub pick : List Num → List ℕ → Option (List Num)
  unfolding place
  pick sorted [] = some []
  pick sorted (p ∷ ps) = do
    time ← get_elem? sorted (place (length sorted) p)
    rest ← pick sorted ps
    some (time ∷ rest)

  -- `none` is an access out of bounds.
  unfoldable pub get_percentiles : NetworkStats F → Option (List Num)
  unfolding pick
  get_percentiles s =
      if is_empty s.latency_samples then some [] else pick (sort lt s.latency_samples) p_values
