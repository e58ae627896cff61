-- ===== src/Lock/Spin/Safety.antt =====
-- src/lock_visualizer_cpp.cpp, `SpinLock` and `perform_write_operation`: what holds in every state
-- that the workers reach.
use context_switching.Prelude.{ℕ, ◌≡◌, refl, inl, inr, true, arith}
use context_switching.Prelude.Double.{Double}
use context_switching.Prelude.Threads.{put_both}
use context_switching.Lock.Statistics.{no_statistics}
use context_switching.Lock.Spin.{
  looping, System, Step, work, time_over, initial, Reach, start, later, holds,
}
use context_switching.Lock.Spin.Invariant.{
  Consistent, Move-Consistent, Owned, Move-Effect, Effect-Owned,
}
use context_switching.Lock.Spin.Counter.{Counted, Step-Counted, initial-Counted}

-- Whatever the steps keep holds in every state reached.
pub Reach-induction :
    {F : Double} {n : ℕ} (P : System F → Type 0)
    → P (initial F (λ _. 0))
    → ((s t : System F) → P s → Step F n s t → P t)
    → {s : System F} → Reach F n s
    → P s
Reach-induction P base more start = base
Reach-induction P base more (later {s} {t} r k) = more s t (Reach-induction P base more r) k

abbrev AllConsistent : {F : Double} → System F → Type 0
AllConsistent s = (i : ℕ) → Consistent (s.stats i) (s.place i)

start-Consistent : (F : Double) → Consistent (no_statistics F) looping
start-Consistent F = record {
  acquisitions = refl;
  operations = refl;
  contentions = (0, refl, omega arith);
}

module _ {F : Double} {n : ℕ} where
  Step-Owned : {s t : System F} → Owned n s.mem s.place → Step F n s t → Owned n t.mem t.place
  Step-Owned {s} o (work i {m} {t} {p} l move) = Effect-Owned s.place i p l (Move-Effect move) o
  Step-Owned o time_over = o

  pub Reach-Owned : {s : System F} → Reach F n s → Owned n s.mem s.place
  Reach-Owned =
      Reach-induction (λ s. Owned n s.mem s.place) (inl (refl, λ j. refl))
        (λ s t o k. Step-Owned o k)

  Step-Consistent : {s t : System F} → AllConsistent s → Step F n s t → AllConsistent t
  Step-Consistent {s} c (work i l move) j =
      put_both (λ t p. Consistent t p) i j s.stats s.place (Move-Consistent move (c i)) (c j)
  Step-Consistent c time_over j = c j

  -- In every state that n workers reach, two threads between the success of test_and_set and clear
  -- are the same thread.
  pub mutual_exclusion :
      {s : System F} (i j : ℕ)
      → Reach F n s
      → holds (s.place i) ≡ true
      → holds (s.place j) ≡ true
      → i ≡ j
  mutual_exclusion {s} i j r h k = elim (Reach-Owned r) [
    | inl (c, none) ↦ absurd (ground (arith, none i))
    | inr (o, c, b, held, only) ↦ ground (arith, only i h, only j k)
  ]

  -- In every state that n workers reach, a thread has recorded, modulo 2^64, as many acquisitions as
  -- waits, but for one that it is about to count; as many operations as waits, but for the one it is
  -- in; and a number of contentions that is at most the number of its waits, but for one.
  pub statistics-Consistent :
      {s : System F} (i : ℕ) → Reach F n s → Consistent (s.stats i) (s.place i)
  statistics-Consistent i r =
      Reach-induction AllConsistent (λ j. start-Consistent F) (λ s t c k. Step-Consistent c k) r i

  -- In every state that n workers reach, the shared counter is the sum, modulo 2^64, of the write
  -- operations recorded and of those counted under the lock and not yet recorded.
  pub no_lost_update : {s : System F} → Reach F n s → Counted n s
  no_lost_update =
      Reach-induction (Counted n) (initial-Counted F n (λ _. 0)) (λ s t c k. Step-Counted k c)
