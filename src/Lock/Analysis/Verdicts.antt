-- ===== src/Lock/Analysis/Verdicts.antt =====
-- src/lock_visualizer_cpp.cpp, `provide_recommendations`: the verdict on the contention.
use context_switching.Prelude.{◌*◌, ◌<◌, ◌≡◌, arith, ltb, if◌then◌else◌}
use context_switching.Prelude.Fraction.{exact}
use context_switching.Lock.Analysis.{high, moderate, low, Totals, contention_rate, contention_of}

-- In exact arithmetic, with at least one acquisition, the verdict is high when the contentions are
-- more than half of the acquisitions, moderate when they are more than a fifth of them, and low
-- otherwise.
verdict_by_shares :
    (t : Totals exact)
    → 0 < t.total_acquisitions
    → contention_of exact (contention_rate exact t) ≡ (
        if ltb t.total_acquisitions (2 * t.total_contentions)
        then high
        else if ltb t.total_acquisitions (5 * t.total_contentions)
        then moderate
        else low)
unfolding contention_of contention_rate
verdict_by_shares t h = ground arith
