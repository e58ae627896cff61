-- ===== src/ContextSwitch/Statistics/Summary.antt =====
-- src/context_switch_cpp.cpp: what `ContextSwitchStats::calculate` leaves in the record.
use mathlib.Core.List.{Perm}
use context_switching.Prelude.{
  ℕ, ◌-◌, ◌/◌, ◌≤◌, ◌<◌, ◌≡◌, refl, false, List, some, arith, inl, inr, leb, accumulate, Bool-cases,
  length, get_elem?, get_elem?_total, is_empty, All, All-of_get,
}
use context_switching.Prelude.Double.{Double, IsOrdered, IsScaling, literal}
use context_switching.Prelude.Sort.{
  sort, IsSorted, sort-IsSorted, IsSorted-get, length-sort, sort-perm,
}
use context_switching.ContextSwitch.Statistics.{
  ContextSwitchStats, variance_sum, percentile, analyse, calculate,
}

module _ (F : Double) where
  open F use {Num, lt}

  -- `t` is one of the times, and lies between `low` and `high`.
  pub record Among (times : List Num) (low high t : Num) : Type 0 where
    pub place : ℕ
    pub found : get_elem? times place ≡ some t
    pub above : lt t low ≡ false
    pub below : lt high t ≡ false

  -- `r` is the summary of the times of `s`.
  pub record Summarises (s r : ContextSwitchStats F) : Type 0 where
    pub same_times : Perm r.times s.times
    pub in_order : IsSorted lt r.times
    pub ends : All (λ t. (lt t r.min_time ≡ false) × (lt r.max_time t ≡ false)) r.times
    pub low_end : Among r.times r.min_time r.max_time r.min_time
    pub high_end : Among r.times r.min_time r.max_time r.max_time
    pub middle : Among r.times r.min_time r.max_time r.median
    pub tail_95 : 20 ≤ length s.times → Among r.times r.min_time r.max_time r.percentile_95
    pub tail_99 : 100 ≤ length s.times → Among r.times r.min_time r.max_time r.percentile_99
    pub short_95 : length s.times < 20 → r.percentile_95 ≡ s.percentile_95
    pub short_99 : length s.times < 100 → r.percentile_99 ≡ s.percentile_99

module _ (F : Double) (ordered : IsOrdered F) (scaling : IsScaling F) where
  open F use {Num, lt}

  -- What `percentile` returns: one of the times, or the old value where there are too few.
  record Found (times : List Num) (least : ℕ) (old a : Num) : Type 0 where
    enough : least ≤ length times → (i : ℕ) × (i < length times) × (get_elem? times i ≡ some a)
    few : length times < least → a ≡ old

  percentile_total :
      (times : List Num) (least p : ℕ) (old : Num)
      → 0 < length times
      → p < 100
      → (a : Num) × (percentile F times least p old ≡ some a) × Found times least old a
  unfolding percentile
  percentile_total times least p old h q = elim (Bool-cases (leb least (length times))) [
    | inl e ↦
        let i = F.trunc (F.mul (F.of_nat (length times)) (literal F p 100)) in
        let (a, found) =
          get_elem?_total times i (scaling.trunc-mul-lt (length times) p 100 h q (omega arith)) in
        (
          a,
          rw e found,
          record {
            enough = λ _. (i, (scaling.trunc-mul-lt (length times) p 100 h q (omega arith)), found);
            few = λ k. absurd (ground arith);
          },
        )
    | inr e ↦ (old, rw e, record { enough = λ k. absurd (ground arith); few = λ _. refl })
  ]

  module _ (xs : List Num) (in_order : IsSorted lt xs) {low high : Num}
      (first : get_elem? xs 0 ≡ some low) (last : get_elem? xs (length xs - 1) ≡ some high) where
    among : (i : ℕ) (t : Num) → i < length xs → get_elem? xs i ≡ some t → Among F xs low high t
    among i t h e = record {
      place = i;
      found = e;
      above =
          IsSorted-get lt ordered.asym ordered.negative_trans xs 0 i in_order (omega arith) first e;
      below =
          IsSorted-get lt ordered.asym ordered.negative_trans xs i (length xs - 1) in_order
            (omega arith) e last;
    }

    everywhere_between : All (λ t. (lt t low ≡ false) × (lt high t ≡ false)) xs
    everywhere_between =
        All-of_get (λ t. (lt t low ≡ false) × (lt high t ≡ false)) xs
          (λ i t h e. ((among i t h e).above, (among i t h e).below))

  analyse_total :
      (s : ContextSwitchStats F) (xs : List Num)
      → IsSorted lt xs
      → Perm xs s.times
      → length xs ≡ length s.times
      → 0 < length xs
      → (r : ContextSwitchStats F) × (analyse F s xs ≡ some r) × Summarises F s r
  unfolding analyse
  analyse_total s xs in_order same long h =
      let (low, first) = get_elem?_total xs 0 h in
      let (high, last) = get_elem?_total xs (length xs - 1) (omega arith) in
      let (mid, middle) = get_elem?_total xs (length xs / 2) (omega arith) in
      let (p95, e95, f95) = percentile_total xs 20 95 s.percentile_95 h (omega arith) in
      let (p99, e99, f99) = percentile_total xs 100 99 s.percentile_99 h (omega arith) in
      (
        record {
          times = xs;
          mean = F.div (accumulate F.add (F.of_nat 0) xs) (F.of_nat (length xs));
          median = mid;
          min_time = low;
          max_time = high;
          std_dev = F.sqrt (
              F.div
                (variance_sum F (F.div (accumulate F.add (F.of_nat 0) xs) (F.of_nat (length xs)))
                  xs)
                (F.of_nat (length xs)));
          percentile_95 = p95;
          percentile_99 = p99;
        },
        rw (first, last, middle, e95, e99),
        record {
          same_times = same;
          in_order = in_order;
          ends = everywhere_between xs in_order first last;
          low_end = among xs in_order first last 0 low h first;
          high_end = among xs in_order first last (length xs - 1) high (omega arith) last;
          middle = among xs in_order first last (length xs / 2) mid (omega arith) middle;
          tail_95 = λ k.
              let (i, l, e) = f95.enough (omega arith) in among xs in_order first last i p95 l e;
          tail_99 = λ k.
              let (i, l, e) = f99.enough (omega arith) in among xs in_order first last i p99 l e;
          short_95 = λ k. f95.few (omega arith);
          short_99 = λ k. f99.few (omega arith);
        },
      )

  pub calculate-Summarises :
      (s : ContextSwitchStats F)
      → 0 < length s.times
      → (r : ContextSwitchStats F) × (calculate F s ≡ some r) × Summarises F s r
  unfolding calculate
  calculate-Summarises s h = elim (Bool-cases (is_empty s.times)) [
    | inl e ↦ absurd (ground arith)
    | inr e ↦ rw e (
        analyse_total s (sort lt s.times)
          (sort-IsSorted lt ordered.asym ordered.negative_trans s.times) (sort-perm lt s.times)
          (length-sort lt s.times) (omega (arith, length-sort lt s.times)))
  ]
