-- ===== src/Disk/Metrics/Totals.antt =====
-- src/disk_io_analyzer_cpp.cpp, `calculate_aggregate_metrics`: totals, maxima and minima.
use context_switching.Prelude.{
  ◌+◌, ◌<◌, ◌^◌, ◌≡◌, false, List, [], ◌∷◌, Option, none, some, map, sum, accumulate, All, All-map,
  subst⁻¹, Bool-cases, inl, inr, arith,
}
use context_switching.Prelude.Words.{u64}
use context_switching.Prelude.Double.{Double, IsOrdered}
use context_switching.Disk.Statistics.{IoStatistics}
use context_switching.Disk.Metrics.{
  AggregateMetrics, no_metrics, larger, least, add_stat, set_rates, set_latency,
  calculate_aggregate_metrics,
}

module _ (F : Double) where
  open F use {Num, of_nat, lt}

  -- The four sums, modulo 2^64, added to those at the start.
  pub record Sums (m : AggregateMetrics F) (stats : List (IoStatistics F))
      (start : AggregateMetrics F) : Type 0 where
    pub read_bytes :
        m.total_read_bytes ≡ u64 (start.total_read_bytes + sum (map (λ s. s.bytes_read) stats))
    pub write_bytes :
        m.total_write_bytes ≡ u64 (start.total_write_bytes + sum (map (λ s. s.bytes_written) stats))
    pub read_ops :
        m.total_read_ops ≡ u64 (start.total_read_ops + sum (map (λ s. s.read_operations) stats))
    pub write_ops :
        m.total_write_ops ≡ u64 (start.total_write_ops + sum (map (λ s. s.write_operations) stats))

  -- `b` is not below the minimum `a`.
  abbrev pub NotBelow : Option Num → Option Num → Type 0
  NotBelow a none = Unit
  NotBelow none (some b) = ⊥
  NotBelow (some a) (some b) = lt b a ≡ false

  -- Nothing of `s` is above a maximum or below the minimum.
  pub record Within (m : AggregateMetrics F) (s : IoStatistics F) : Type 0 where
    pub time : lt m.total_time s.total_time ≡ false
    pub slowest : lt m.max_latency s.max_latency ≡ false
    pub fastest : NotBelow m.min_latency s.min_latency

  module _ (ordered : IsOrdered F) where
    not_above : (a b c : Num) → lt b c ≡ false → lt (larger F a b) c ≡ false
    not_above a b c h = elim (Bool-cases (lt b a)) [
      | inl e ↦ rw e (ordered.negative_trans c b a h (ordered.asym b a e))
      | inr e ↦ rw e h
    ]

    irreflexive : (a : Num) → lt a a ≡ false
    irreflexive a = ground (arith, ordered.asym a a)

    larger_self : (a b : Num) → lt (larger F a b) a ≡ false
    larger_self a b = ground (arith, irreflexive a)

    least_self : (a m : Option Num) → NotBelow (least F a m) a
    least_self none m = tt
    least_self (some a) none = irreflexive a
    least_self (some a) (some b) = elim (Bool-cases (lt a b)) [
      | inl e ↦ rw e (irreflexive a)
      | inr e ↦ rw e e
    ]

    least_other : (a m c : Option Num) → NotBelow m c → NotBelow (least F a m) c
    least_other a m none h = tt
    least_other none m (some c) h = h
    least_other (some a) none (some c) h = absurd h
    least_other (some a) (some b) (some c) h = elim (Bool-cases (lt a b)) [
      | inl e ↦ rw e (ordered.negative_trans a b c (ordered.asym a b e) h)
      | inr e ↦ rw e h
    ]

    own-Within : (m : AggregateMetrics F) (s : IoStatistics F) → Within (add_stat F m s) s
    unfolding add_stat
    own-Within m s = record {
      time = larger_self s.total_time m.total_time;
      slowest = larger_self s.max_latency m.max_latency;
      fastest = least_self s.min_latency m.min_latency;
    }

    kept-Within :
        (m : AggregateMetrics F) (s t : IoStatistics F) → Within m t → Within (add_stat F m s) t
    unfolding add_stat
    kept-Within m s t w = record {
      time = not_above s.total_time m.total_time t.total_time w.time;
      slowest = not_above s.max_latency m.max_latency t.max_latency w.slowest;
      fastest = least_other s.min_latency m.min_latency t.min_latency w.fastest;
    }

    accumulate-kept :
        (m : AggregateMetrics F) (stats : List (IoStatistics F)) (t : IoStatistics F)
        → Within m t
        → Within (accumulate (add_stat F) m stats) t
    accumulate-kept m [] t w = w
    accumulate-kept m (s ∷ stats) t w =
        accumulate-kept (add_stat F m s) stats t (kept-Within m s t w)

    accumulate-Within :
        (m : AggregateMetrics F) (stats : List (IoStatistics F))
        → All (Within (accumulate (add_stat F) m stats)) stats
    accumulate-Within m [] = tt
    accumulate-Within m (s ∷ stats) = (
      accumulate-kept (add_stat F m s) stats s (own-Within m s),
      accumulate-Within (add_stat F m s) stats,
    )

  accumulate-Sums :
      (m : AggregateMetrics F) (stats : List (IoStatistics F))
      → (m.total_read_bytes < 2 ^ 64)
        × (m.total_write_bytes < 2 ^ 64)
        × (m.total_read_ops < 2 ^ 64)
        × (m.total_write_ops < 2 ^ 64)
      → Sums (accumulate (add_stat F) m stats) stats m
  unfolding add_stat
  accumulate-Sums m [] h = record {
    read_bytes = omega (arith, h.0);
    write_bytes = omega (arith, h.1);
    read_ops = omega (arith, h.2);
    write_ops = omega (arith, h.3);
  }
  accumulate-Sums m (s ∷ stats) h =
      let rest =
        accumulate-Sums (add_stat F m s) stats
          (omega arith, omega arith, omega arith, omega arith) in
      record {
        read_bytes = omega (arith, rest.read_bytes);
        write_bytes = omega (arith, rest.write_bytes);
        read_ops = omega (arith, rest.read_ops);
        write_ops = omega (arith, rest.write_ops);
      }

  rates-Within :
      (m : AggregateMetrics F) (s : IoStatistics F)
      → Within m s
      → Within (set_latency F (set_rates F m)) s
  unfolding set_latency set_rates
  rates-Within m s w =
      let same : (set_latency F (set_rates F m)).min_latency ≡ m.min_latency = ground arith in
      record {
        time = ground (arith, w.time);
        slowest = ground (arith, w.slowest);
        fastest = subst⁻¹ (λ a. NotBelow a s.min_latency) same w.fastest;
      }

  rates-Sums :
      (m start : AggregateMetrics F) (stats : List (IoStatistics F))
      → Sums m stats start
      → Sums (set_latency F (set_rates F m)) stats start
  unfolding set_latency set_rates
  rates-Sums m start stats h = record {
    read_bytes = ground (arith, h.read_bytes);
    write_bytes = ground (arith, h.write_bytes);
    read_ops = ground (arith, h.read_ops);
    write_ops = ground (arith, h.write_ops);
  }

-- Where `<` is a strict weak order, the totals that `calculate_aggregate_metrics` returns are the sums of
-- the threads' counters, modulo 2^64; no thread's time or latency is above its maximum, and none below
-- its minimum.
pub calculate_aggregate_metrics_lem :
    (F : Double)
    → IsOrdered F
    → (stats : List (IoStatistics F))
    → Sums F (calculate_aggregate_metrics F stats) stats (no_metrics F)
      × All (Within F (calculate_aggregate_metrics F stats)) stats
unfolding calculate_aggregate_metrics
calculate_aggregate_metrics_lem F ordered stats =
    let m = accumulate (add_stat F) (no_metrics F) stats in
    (
      rates-Sums F m (no_metrics F) stats (
          accumulate-Sums F (no_metrics F) stats
            (omega arith, omega arith, omega arith, omega arith)),
      All-map (λ s w. rates-Within F m s w) stats
          (accumulate-Within F ordered (no_metrics F) stats),
    )
