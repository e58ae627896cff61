-- ===== src/Network/Report/Total.antt =====
-- src/network_io_benchmarker_cpp.cpp, `print_statistics`: that its accesses are in bounds.
use context_switching.Prelude.{
  ℕ, ◌<◌, ◌≡◌, refl, Bool, false, List, [], ◌∷◌, none, some, arith, ltb, if◌then◌else◌, length,
  get_elem?_total, is_empty, Bool-cases, inl, inr,
}
use context_switching.Prelude.Double.{Double}
use context_switching.Prelude.Sort.{sort, length-sort}
use context_switching.Network.Statistics.{NetworkStats, place, pick, p_values, get_percentiles}
use context_switching.Network.Report.{
  Printed, printed_with, latencies_of, print_latencies, print_statistics,
}

module _ (F : Double) where
  place-lt : (size p : ℕ) → 0 < size → place F size p < size
  unfolding place
  place-lt size p h = ground arith

  pick_total :
      (sorted : List F.Num) (ps : List ℕ)
      → 0 < length sorted
      → (found : List F.Num) × (pick F sorted ps ≡ some found) × (length found ≡ length ps)
  unfolding pick
  pick_total sorted [] h = ([], refl, refl)
  pick_total sorted (p ∷ ps) h =
      let (a, first) = get_elem?_total sorted _ (place-lt (length sorted) p h) in
      let (found, rest, l) = pick_total sorted ps h in
      (a ∷ found, rw (first, rest) refl, omega (arith, l))

  get_percentiles_total :
      (s : NetworkStats F)
      → 0 < length s.latency_samples
      → (found : List F.Num) × (get_percentiles F s ≡ some found) × (length found ≡ 6)
  unfolding get_percentiles
  get_percentiles_total s h =
      let some_samples : is_empty s.latency_samples ≡ false = ground (arith, h) in
      let (found, e, l) =
        pick_total (sort F.lt s.latency_samples) p_values
          (omega (arith, h, length-sort F.lt s.latency_samples)) in
      (found, rw some_samples e, l)

  -- Six percentiles are printed where they are asked for and there is a latency.
  abbrev percentiles_printed : Printed F → ℕ
  percentiles_printed printed = elim printed.latencies [
    | none ↦ 0
    | some l ↦ elim l.percentiles_ms [ none ↦ 0 | some found ↦ length found ]
  ]

  -- Where there are as many samples as latencies are counted, print_statistics reads no sample out of
  -- bounds; it prints six percentiles if a latency is counted and `-v` is given, and none otherwise.
  print_statistics_total :
      (verbose : Bool) (s : NetworkStats F)
      → length s.latency_samples ≡ s.latency_count
      → (printed : Printed F) × (print_statistics F verbose s ≡ some printed)
        × (percentiles_printed printed
            ≡ (if ltb 0 s.latency_count then (if verbose then 6 else 0) else 0))
  unfolding print_statistics print_latencies
  print_statistics_total verbose s l = elim (Bool-cases (ltb 0 s.latency_count)) [
    | inr h ↦ (printed_with F s none, rw h refl, rw h refl)
    | inl h ↦ elim (Bool-cases verbose) [
      | inr v ↦ (printed_with F s (some (latencies_of F s none)), rw (h, v) refl, rw (h, v) refl)
      | inl v ↦
          let (found, e, six) = get_percentiles_total s (ground (arith, h, l)) in
          (
            printed_with F s (some (latencies_of F s (some found))),
            rw (h, v, e) refl,
            rw (h, v) six,
          )
    ]
  ]
