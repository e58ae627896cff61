-- ===== src/Cache/Hierarchy/Percentages.antt =====
-- src/cache_analyzer_cpp.cpp, `cache_hierarchy_analysis`: the totals whose percentages are printed.
use context_switching.Prelude.{
  ℕ, ◌+◌, ◌^◌, ◌≤◌, ◌<◌, ◌≡◌, List, [], ◌∷◌, accumulate, map, sum, arith,
}
use context_switching.Prelude.Fraction.{exact}
use context_switching.Cache.Metrics.{AccessPattern, SystemInfo}
use context_switching.Cache.Metrics.Sums.{estimates_add_up}
use context_switching.Cache.Hierarchy.{Result, estimated, Totals, no_totals, add_result, totals}

-- The results of threads that make so many accesses.
abbrev pub results_of : AccessPattern → ℕ → SystemInfo → List ℕ → List Result
results_of pattern size sys accesses = map (estimated exact pattern size sys) accesses

within :
    (pattern : AccessPattern) (size : ℕ) (sys : SystemInfo) (accesses : List ℕ) (t : Totals)
    → t.total_accesses + sum accesses < 2 ^ 64
    → t.total_l1_hits + t.total_l2_hits + t.total_memory ≤ t.total_accesses
    → let u = accumulate add_result t (results_of pattern size sys accesses) in
      (u.total_l1_hits + u.total_l2_hits + u.total_memory ≤ u.total_accesses)
      × (u.total_accesses ≡ t.total_accesses + sum accesses)
unfolding add_result estimated
within pattern size sys [] t h k = (k, omega arith)
within pattern size sys (n ∷ accesses) t h k =
    let e = estimates_add_up pattern n size sys (omega (arith, h)) in
    let (p, q) =
      within pattern size sys accesses (add_result t (estimated exact pattern size sys n))
        (omega (arith, h)) (omega (arith, h, k, e)) in
    (p, omega (arith, q, h))

-- In exact arithmetic, whatever the pattern, the size and the accesses of the threads, fewer than 2^64
-- together: the total of accesses is their sum, and the hits in both caches and the accesses to memory
-- are together at most that, so that the printed percentages add up to at most 100.
totals_within :
    (pattern : AccessPattern) (size : ℕ) (sys : SystemInfo) (accesses : List ℕ)
    → sum accesses < 2 ^ 64
    → let t = totals (results_of pattern size sys accesses) in
      (t.total_l1_hits + t.total_l2_hits + t.total_memory ≤ t.total_accesses)
      × (t.total_accesses ≡ sum accesses)
unfolding totals
totals_within pattern size sys accesses h =
    let (p, q) = within pattern size sys accesses no_totals (omega (arith, h)) (omega arith) in
    (p, omega (arith, q))
