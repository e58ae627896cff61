-- ===== src/Lock/Analysis/Maximum.antt =====
-- src/lock_visualizer_cpp.cpp: the maximum wait time, of a thread and of the analysis.
use native.Mathlib.Decide.{dec_lt}
use context_switching.Prelude.{
  ℕ, zero, suc, ◌<◌, ◌≡◌, ap, inl, inr, List, [], ◌∷◌, ◌++◌, false, arith, All, All-map,
  if◌then◌else◌, Bool-cases,
}
use context_switching.Prelude.Double.{Double, IsOrdered}
use context_switching.Prelude.Threads.{put_both}
use context_switching.Lock.Statistics.{ThreadStatistics, add_wait_time, add_hold_time}
use context_switching.Lock.Workload.{LockType}
use context_switching.Lock.Spin.{
  Shared, Place, Move, again, quit, try_free, try_busy, spin_free, spin_busy, note_contention,
  note_wait, note_acquisition, write, count, unlock, note_operation, System, Step, work, time_over,
  Reach,
}
use context_switching.Lock.Spin.Safety.{Reach-induction}
use context_switching.Lock.Analysis.{Totals, no_totals, add_thread, totals_of, analyze_results}
use context_switching.Lock.Analysis.Sums.{listed, accumulate-append}

module _ {F : Double} (ordered : IsOrdered F) where
  open F use {Num, lt}

  irreflexive : (a : Num) → lt a a ≡ false
  irreflexive a = elim (Bool-cases (lt a a)) [ inl e ↦ ordered.asym a a e | inr e ↦ e ]

  abbrev larger : Num → Num → Num
  larger a b = if lt a b then b else a

  -- The larger of two is below nothing that either is not below.
  larger_left : (a b w : Num) → lt a w ≡ false → lt (larger a b) w ≡ false
  larger_left a b w h = elim (Bool-cases (lt a b)) [
    | inl e ↦ rw e (ordered.negative_trans w a b h (ordered.asym a b e))
    | inr e ↦ rw e h
  ]

  larger_right : (a b : Num) → lt (larger a b) b ≡ false
  larger_right a b = elim (Bool-cases (lt a b)) [ inl e ↦ rw e (irreflexive b) | inr e ↦ rw e e ]

  abbrev Bounded : Num → List Num → Type 0
  Bounded bound = All (λ w. lt bound w ≡ false)

  Bounded-larger : (a b : Num) (ws : List Num) → Bounded a ws → Bounded (larger a b) ws
  Bounded-larger a b [] h = tt
  Bounded-larger a b (w ∷ ws) h = (larger_left a b w h.0, Bounded-larger a b ws h.1)

  Bounded-append :
      (a b : Num) (ws : List Num) → Bounded a ws → lt a b ≡ false → Bounded a (ws ++ b ∷ [])
  Bounded-append a b [] h l = (l, tt)
  Bounded-append a b (w ∷ ws) h l = (h.0, Bounded-append a b ws h.1 l)

  -- The maximum wait time of a thread against the waits that it has recorded.
  abbrev Within : ThreadStatistics F → Type 0
  Within s = Bounded s.max_wait_time s.wait_times

  Move-Within :
      {m m' : Shared} {s s' : ThreadStatistics F} {p p' : Place}
      → Move F m s p m' s' p'
      → Within s
      → Within s'
  unfolding add_wait_time add_hold_time
  Move-Within (again e) h = h
  Move-Within (quit e) h = h
  Move-Within (try_free e) h = h
  Move-Within (try_busy e) h = h
  Move-Within (spin_free e) h = h
  Move-Within (spin_busy e) h = h
  Move-Within note_contention h = h
  Move-Within {s} (note_wait t) h =
      Bounded-append (larger s.max_wait_time t) t s.wait_times
        (Bounded-larger s.max_wait_time t s.wait_times h) (larger_right s.max_wait_time t)
  Move-Within note_acquisition h = h
  Move-Within (write i v l) h = h
  Move-Within count h = h
  Move-Within unlock h = h
  Move-Within (note_operation t) h = h

  Step-Within :
      {n : ℕ} (s t : System F)
      → ((i : ℕ) → Within (s.stats i))
      → Step F n s t
      → (i : ℕ) → Within (t.stats i)
  Step-Within s t h (work i {p = p} l move) j =
      put_both (λ (t : ThreadStatistics F) (p : Place). Within t) i j {b = p} s.stats s.place
        (Move-Within move (h i)) (h j)
  Step-Within s t h time_over j = h j

  Reach-Within : {n : ℕ} {s : System F} → Reach F n s → (i : ℕ) → Within (s.stats i)
  Reach-Within = Reach-induction (λ s. (i : ℕ) → Within (s.stats i)) (λ i. tt) Step-Within

  total_max : (ℕ → ThreadStatistics F) → ℕ → Num
  total_max stats n = (totals_of F (listed n stats)).max_wait_time

  total_max-suc :
      (n : ℕ) (stats : ℕ → ThreadStatistics F)
      → total_max stats (suc n) ≡ larger (total_max stats n) (stats n).max_wait_time
  unfolding total_max totals_of add_thread
  total_max-suc n stats =
      ap (λ (t : Totals F). t.max_wait_time)
        (accumulate-append (add_thread F) (no_totals F) (listed n stats) (stats n ∷ []))

  total_max-bound :
      (n i : ℕ) (stats : ℕ → ThreadStatistics F)
      → i < n
      → lt (total_max stats n) (stats i).max_wait_time ≡ false
  total_max-bound zero i stats l = absurd (omega (arith, l))
  total_max-bound (suc n) i stats l = elim (dec_lt i n) [
    | yes k ↦ rw (total_max-suc n stats) (
        larger_left (total_max stats n) (stats n).max_wait_time (stats i).max_wait_time
          (total_max-bound n i stats k))
    | no k ↦
        let here : i ≡ n = omega (arith, l, k) in
        rw (total_max-suc n stats, here) (larger_right (total_max stats n) (stats n).max_wait_time)
  ]

  -- Where < is a strict weak order, the maximum wait time that is printed for workers under a spin
  -- lock is below no wait that any of them has recorded, in every state that they reach.
  pub printed_maximum :
      {n : ℕ} {s : System F} (i : ℕ) (duration : Num) (lock : LockType)
      → Reach F n s
      → i < n
      → All
          (λ w.
            lt (analyze_results F lock duration (listed n s.stats)).totals.max_wait_time w ≡ false)
          (s.stats i).wait_times
  unfolding analyze_results total_max
  printed_maximum {n} {s} i duration lock r l =
      All-map
        (λ w h.
          ordered.negative_trans w (s.stats i).max_wait_time (total_max s.stats n) h
            (total_max-bound n i s.stats l))
        (s.stats i).wait_times (Reach-Within r i)
