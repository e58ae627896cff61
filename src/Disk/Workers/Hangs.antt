-- ===== src/Disk/Workers/Hangs.antt =====
-- src/disk_io_analyzer_cpp.cpp, `run_io_test`: the workers at the barrier when one of them has gone.
use context_switching.Prelude.{ℕ, ◌<◌, ◌≡◌, ◌⊎◌, inl, inr, refl, arith}
use context_switching.Disk.Workers.{
  waiting, gone, Caller, sleeping, joining, System, Step, launch, create_fails, all_launched, wake,
  join, unwind, use_destroyed, open_file, open_fails, arrive, pass, finish, initial, Steps,
}
use context_switching.Disk.Workers.Barrier.{
  Invariant, Step-Invariant, Steps-keep, Reach-Invariant, pending-le,
}

-- All workers are launched, and the caller sleeps or waits for them.
abbrev pub Waits : Caller → Type 0
Waits c = (c ≡ sleeping) ⊎ (c ≡ joining)

record Hung (n i j : ℕ) (s : System) : Type 0 where
  invariant : Invariant n s
  lost : s.worker i ≡ gone
  stuck : s.worker j ≡ waiting
  inside : Waits s.caller

missing : {n i : ℕ} {s : System} → i < n → s.worker i ≡ gone → Invariant n s → s.arrived < n
missing {n} {i} {s} l g v = ground (arith, v.counted, pending-le n i s.worker l, g)

module _ {n : ℕ} {s : System} where
  gone_kept :
      {t : System} (i : ℕ) → Invariant n s → s.worker i ≡ gone → Step n s t → t.worker i ≡ gone
  gone_kept i v g (launch k l c) = ground (arith, g, v.in_order k k c (omega arith))
  gone_kept i v g (create_fails k l c) = g
  gone_kept i v g (all_launched c) = g
  gone_kept i v g (wake c) = g
  gone_kept i v g (join c o) = g
  gone_kept i v g (unwind k c o) = g
  gone_kept i v g (use_destroyed k j c l u) = g
  gone_kept i v g (open_file k l c) = ground (arith, g, c)
  gone_kept i v g (open_fails k l c) = ground (arith, g, c)
  gone_kept i v g (arrive k l c a) = ground (arith, g, c)
  gone_kept i v g (pass k l c f a) = ground (arith, g, c)
  gone_kept i v g (finish k l c f a) = ground (arith, g, c)

  waiting_kept :
      {t : System} (j : ℕ)
      → Invariant n s
      → s.arrived < n
      → s.worker j ≡ waiting
      → Step n s t
      → t.worker j ≡ waiting
  waiting_kept j v a w (launch k l c) = ground (arith, w, v.in_order k k c (omega arith))
  waiting_kept j v a w (create_fails k l c) = w
  waiting_kept j v a w (all_launched c) = w
  waiting_kept j v a w (wake c) = w
  waiting_kept j v a w (join c o) = w
  waiting_kept j v a w (unwind k c o) = w
  waiting_kept j v a w (use_destroyed k i c l u) = w
  waiting_kept j v a w (open_file k l c) = ground (arith, w, c)
  waiting_kept j v a w (open_fails k l c) = ground (arith, w, c)
  waiting_kept j v a w (arrive k l c b) = ground (arith, w, c)
  waiting_kept j v a w (pass k l c f b) = absurd (omega (arith, a, f))
  waiting_kept j v a w (finish k l c f b) = ground (arith, w, c)

  inside_kept :
      {t : System} (j : ℕ)
      → j < n
      → s.worker j ≡ waiting
      → Waits s.caller
      → Step n s t
      → Waits t.caller
  inside_kept j l w h (launch k m e) = absurd (ground (arith, h, e))
  inside_kept j l w h (create_fails k m e) = absurd (ground (arith, h, e))
  inside_kept j l w h (all_launched e) = inl refl
  inside_kept j l w h (wake e) = inr refl
  inside_kept j l w h (join e o) = absurd (ground (arith, o j l, w))
  inside_kept j l w h (unwind k e o) = absurd (ground (arith, h, e))
  inside_kept j l w h (use_destroyed k i e m u) = absurd (ground (arith, h, e))
  inside_kept j l w h (open_file i m e) = h
  inside_kept j l w h (open_fails i m e) = h
  inside_kept j l w h (arrive i m e a) = h
  inside_kept j l w h (pass i m e f a) = h
  inside_kept j l w h (finish i m e f a) = h

  Step-Hung : {t : System} (i j : ℕ) → i < n → j < n → Hung n i j s → Step n s t → Hung n i j t
  Step-Hung i j k l h step = record {
    invariant = Step-Invariant h.invariant step;
    lost = gone_kept i h.invariant h.lost step;
    stuck = waiting_kept j h.invariant (missing k h.lost h.invariant) h.stuck step;
    inside = inside_kept j l h.stuck h.inside step;
  }

-- Where all workers are launched, one of them has gone because its file could not be opened, and another
-- one waits at the barrier, this one waits in every state that can follow, and `run_io_test` goes on
-- sleeping or waiting for its workers and never returns.
pub barrier_hangs :
    {n : ℕ} {s t : System} (i j : ℕ)
    → Steps n initial s
    → i < n
    → j < n
    → Waits s.caller
    → s.worker i ≡ gone
    → s.worker j ≡ waiting
    → Steps n s t
    → (t.worker j ≡ waiting) × Waits t.caller
barrier_hangs {n} {s} i j r k l w g b run =
    let h =
      Steps-keep (Hung n i j) (λ s t h m. Step-Hung i j k l h m)
        (record { invariant = Reach-Invariant r; lost = g; stuck = b; inside = w }) run in
    (h.stuck, h.inside)
