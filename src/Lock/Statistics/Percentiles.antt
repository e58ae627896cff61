-- ===== src/Lock/Statistics/Percentiles.antt =====
-- src/lock_visualizer_cpp.cpp: the percentiles of the wait times.
use context_switching.Prelude.{◌<◌, ◌≡◌, inl, inr, List, some, arith, Bool-cases, length, is_empty}
use context_switching.Prelude.Double.{Double, IsOrdered, IsMonotone}
use context_switching.Prelude.Sort.{sort, IsSorted}
use context_switching.Prelude.Percentiles.{asked, AllAt, percentiles_lem}
use context_switching.Lock.Statistics.{ThreadStatistics, get_wait_time_percentiles}

-- Where `<` is a strict weak order and larger fractions are not cut to smaller places, the
-- percentiles of at least one wait time are read within bounds; each of the five stands in the
-- sorted times at its place, and they are in order.
percentiles_in_order :
    (F : Double)
    → IsOrdered F
    → IsMonotone F
    → (s : ThreadStatistics F) → 0 < length s.wait_times
    → (found : List F.Num) × (get_wait_time_percentiles F s ≡ some found)
      × AllAt F (sort F.lt s.wait_times) asked found
      × IsSorted F.lt found
unfolding get_wait_time_percentiles
percentiles_in_order F ordered monotone s h = elim (Bool-cases (is_empty s.wait_times)) [
  | inl e ↦ absurd (ground arith)
  | inr e ↦
      let (found, read, at, sorted) = percentiles_lem F ordered monotone s.wait_times h in
      (found, rw e read, at, sorted)
]
