-- ===== src/ContextSwitch/Statistics.antt =====
-- src/context_switch_cpp.cpp: `ContextSwitchStats`, the summary of the measured times and its
-- histogram. An access out of bounds, or an overflow of `int`, is the result `none`.
pub mod Summary
pub mod Histogram
use context_switching.Prelude.{
  ℕ, suc, ◌+◌, ◌-◌, ◌*◌, ◌/◌, ◌^◌, Bool, true, false, not, List, [], ◌∷◌, Option, none, some, ltb,
  leb, ◌==◌, if◌then◌else◌, ◌>>=◌, length, get_elem?, is_empty, accumulate, modify?, replicate,
  max_element,
}
use context_switching.Prelude.Double.{Double, literal}
use context_switching.Prelude.Sort.{sort}

pub record ContextSwitchStats (F : Double) : Type 0 where
  pub times : List F.Num
  pub mean : F.Num
  pub median : F.Num
  pub min_time : F.Num
  pub max_time : F.Num
  pub std_dev : F.Num
  pub percentile_95 : F.Num
  pub percentile_99 : F.Num

-- What `print_histogram` prints: nothing, or for each bucket the length of its bar and its count.
pub data Plot : Type 0 where
  nothing : Plot
  bars : List (ℕ × ℕ) → Plot

abbrev pub buckets : ℕ
buckets = 20

-- `int`
abbrev pub int_limit : ℕ
int_limit = 2 ^ 31

module _ (F : Double) where
  open F use {Num, of_nat, add, sub, mul, div, sqrt, lt, trunc}

  pub initial : ContextSwitchStats F
  initial = record {
    times = [];
    mean = of_nat 0;
    median = of_nat 0;
    min_time = of_nat 0;
    max_time = of_nat 0;
    std_dev = of_nat 0;
    percentile_95 = of_nat 0;
    percentile_99 = of_nat 0;
  }

  -- `times[static_cast<size_t>(times.size() * p)]` where there are `least` times, else `old`.
  pub percentile : List Num → ℕ → ℕ → Num → Option Num
  percentile times least p old =
      if leb least (length times)
      then get_elem? times (trunc (mul (of_nat (length times)) (literal F p 100)))
      else some old

  pub variance_sum : Num → List Num → Num
  variance_sum mean = accumulate (λ v t. add v (mul (sub t mean) (sub t mean))) (of_nat 0)

  pub analyse : ContextSwitchStats F → List Num → Option (ContextSwitchStats F)
  unfolding percentile variance_sum
  analyse s times = do
    let size = of_nat (length times)
    front ← get_elem? times 0
    back ← get_elem? times (length times - 1)
    let mean = div (accumulate add (of_nat 0) times) size
    median ← get_elem? times (length times / 2)
    p95 ← percentile times 20 95 s.percentile_95
    p99 ← percentile times 100 99 s.percentile_99
    some (record {
      times = times;
      mean = mean;
      median = median;
      min_time = front;
      max_time = back;
      std_dev = sqrt (div (variance_sum mean times) size);
      percentile_95 = p95;
      percentile_99 = p99;
    })

  pub calculate : ContextSwitchStats F → Option (ContextSwitchStats F)
  calculate s = if is_empty s.times then some s else analyse s (sort lt s.times)

  -- The cast of a value above -1 to `int`, which cuts towards 0, clamped to the last bucket.
  pub cast_bucket : Num → Option ℕ
  cast_bucket x =
      let bucket = trunc x in
      if lt x (of_nat 0)
      then some 0
      else if ltb bucket int_limit
      then some (if leb buckets bucket then buckets - 1 else bucket)
      else none

  -- The bucket of one time. From -1 down the cast gives a negative bucket, which is not clamped and is an
  -- access out of bounds; and of a value that is no number the comparison fails, and the cast is undefined.
  pub bucket_of : Num → Num → Num → Option ℕ
  bucket_of min_time range time =
      let x = mul (div (sub time min_time) range) (of_nat (buckets - 1)) in
      if lt (of_nat 0) (add x (of_nat 1)) then cast_bucket x else none

  pub fill_histogram : Num → Num → List Num → List ℕ → Option (List ℕ)
  fill_histogram min_time range [] histogram = some histogram
  fill_histogram min_time range (t ∷ ts) histogram = do
    bucket ← bucket_of min_time range t
    counted ← modify? histogram bucket suc
    fill_histogram min_time range ts counted

-- The bar of one bucket: `(histogram[i] * 50) / max_count` in `int`.
pub bar_length : ℕ → ℕ → Option ℕ
bar_length max_count count =
    if ltb (count * 50) int_limit then some (count * 50 / max_count) else none

pub draw : ℕ → List ℕ → Option (List (ℕ × ℕ))
draw max_count [] = some []
draw max_count (c ∷ cs) = do
  bar ← bar_length max_count c
  rest ← draw max_count cs
  some ((bar, c) ∷ rest)

module _ (F : Double) where
  open F use {Num, of_nat, sub, lt}

  -- `range == 0`, by the order
  unfoldable pub is_zero : Num → Bool
  is_zero a = if lt a (of_nat 0) then false else not (lt (of_nat 0) a)

  pub print_histogram : ContextSwitchStats F → Option Plot
  print_histogram s =
      let range = sub s.max_time s.min_time in
      if ltb (length s.times) 10 then some nothing else if is_zero range then some nothing else (do
        histogram ← fill_histogram F s.min_time range s.times (replicate buckets 0)
        let max_count = max_element histogram
        if max_count == 0
            then some nothing
            else (draw max_count histogram >>= λ plot. some (bars plot)))
