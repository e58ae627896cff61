-- ===== src/Disk/Workers/Barrier.antt =====
-- src/disk_io_analyzer_cpp.cpp, `run_io_test`: what the barrier makes the workers wait for.
use context_switching.Prelude.{ℕ, zero, suc, ◌+◌, ◌≤◌, ◌<◌, ◌≡◌, refl, Bool, true, false, arith}
use context_switching.Prelude.Threads.{weigh, weigh-put, weigh-suc, weigh-zero}
use context_switching.Disk.Workers.{
  Worker, unlaunched, opening, ready, waiting, executing, closed, gone, launching, System, Step,
  launch, create_fails, all_launched, wake, join, unwind, use_destroyed, open_file, open_fails,
  arrive, pass, finish, initial, Steps, done, next,
}

-- Who has not arrived at the barrier.
abbrev pub pending : Worker → ℕ
pending unlaunched = 1
pending opening = 1
pending ready = 1
pending gone = 1
pending _ = 0

abbrev pub started : Worker → Bool
started executing = true
started closed = true
started _ = false

-- The arrivals are those of the workers that have arrived; a worker past the barrier has found all of
-- them there; and the caller launches in order.
pub record Invariant (n : ℕ) (s : System) : Type 0 where
  pub counted : s.arrived + weigh pending n s.worker ≡ n
  pub met : (i : ℕ) → i < n → started (s.worker i) ≡ true → s.arrived ≡ n
  pub in_order : (k i : ℕ) → s.caller ≡ launching k → k ≤ i → s.worker i ≡ unlaunched

weigh_all : (n : ℕ) → weigh pending n (λ _. unlaunched) ≡ n
weigh_all zero = weigh-zero pending (λ _. unlaunched)
weigh_all (suc n) = omega (arith, weigh-suc pending n (λ _. unlaunched), weigh_all n)

initial-Invariant : (n : ℕ) → Invariant n initial
initial-Invariant n = record {
  counted = omega (arith, weigh_all n);
  met = λ i l h. ground (arith, h);
  in_order = λ k i h l. refl;
}

module _ {n : ℕ} {s : System} where
  pub Step-Invariant : {t : System} → Invariant n s → Step n s t → Invariant n t
  Step-Invariant v (launch k l c) = record {
    counted = ground (
      arith,
      v.counted,
      v.in_order k k c (omega arith),
      weigh-put pending n k opening s.worker l,
    );
    met = λ i m h. ground (arith, v.met i m);
    in_order = λ j i h m. ground (arith, v.in_order k i c, h);
  }
  Step-Invariant v (create_fails k l c) = record {
    counted = v.counted;
    met = v.met;
    in_order = λ j i h m. ground (arith, v.in_order k i c, h);
  }
  Step-Invariant v (all_launched c) = record {
    counted = v.counted;
    met = v.met;
    in_order = λ j i h m. ground (arith, h);
  }
  Step-Invariant v (wake c) = record {
    counted = v.counted;
    met = v.met;
    in_order = λ j i h m. ground (arith, h);
  }
  Step-Invariant v (join c o) = record {
    counted = v.counted;
    met = v.met;
    in_order = λ j i h m. ground (arith, h);
  }
  Step-Invariant v (unwind k c o) = record {
    counted = v.counted;
    met = v.met;
    in_order = λ j i h m. ground (arith, h);
  }
  Step-Invariant v (use_destroyed k i c l u) = record {
    counted = v.counted;
    met = v.met;
    in_order = λ j i h m. ground (arith, h);
  }
  Step-Invariant v (open_file k l c) = record {
    counted = ground (arith, v.counted, c, weigh-put pending n k ready s.worker l);
    met = λ i m h. ground (arith, v.met i m);
    in_order = λ j i h m. ground (arith, v.in_order j i h m, c);
  }
  Step-Invariant v (open_fails k l c) = record {
    counted = ground (arith, v.counted, c, weigh-put pending n k gone s.worker l);
    met = λ i m h. ground (arith, v.met i m);
    in_order = λ j i h m. ground (arith, v.in_order j i h m, c);
  }
  Step-Invariant v (arrive k l c a) = record {
    counted = ground (arith, v.counted, c, weigh-put pending n k waiting s.worker l);
    met =
        λ i m h. ground (arith, v.met i m, v.counted, c, weigh-put pending n k waiting s.worker l);
    in_order = λ j i h m. ground (arith, v.in_order j i h m, c);
  }
  Step-Invariant v (pass k l c f a) = record {
    counted = ground (arith, v.counted, c, weigh-put pending n k executing s.worker l);
    met = λ i m h. f;
    in_order = λ j i h m. ground (arith, v.in_order j i h m, c);
  }
  Step-Invariant v (finish k l c f a) = record {
    counted = ground (arith, v.counted, c, weigh-put pending n k closed s.worker l);
    met = λ i m h. ground (arith, v.met i m, v.met k l, c);
    in_order = λ j i h m. ground (arith, v.in_order j i h m, c);
  }

-- What every step keeps, every run keeps.
pub Steps-keep :
    {n : ℕ} (P : System → Type 0)
    → ((s t : System) → P s → Step n s t → P t)
    → {s t : System} → P s
    → Steps n s t
    → P t
Steps-keep P keep p done = p
Steps-keep P keep p (next {t} {u} r k) = keep t u (Steps-keep P keep p r) k

pub Reach-Invariant : {n : ℕ} {s : System} → Steps n initial s → Invariant n s
Reach-Invariant {n} r =
    Steps-keep (Invariant n) (λ s t v k. Step-Invariant v k) (initial-Invariant n) r

pub pending-le : (n i : ℕ) (f : ℕ → Worker) → i < n → pending (f i) ≤ weigh pending n f
pending-le n i f h = ground (arith, weigh-put pending n i waiting f h)

-- In every state that n threads reach: once one of them has passed the barrier, all n have arrived at it;
-- none of them is still to be launched, before the barrier, or gone.
pub start_together :
    {n : ℕ} {s : System} (i j : ℕ)
    → Steps n initial s
    → i < n
    → j < n
    → started (s.worker i) ≡ true
    → pending (s.worker j) ≡ 0
start_together {n} {s} i j r h k e =
    let v = Reach-Invariant r in omega (arith, v.met i h e, v.counted, pending-le n j s.worker k)
