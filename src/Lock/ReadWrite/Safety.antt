-- ===== src/Lock/ReadWrite/Safety.antt =====
-- src/lock_visualizer_cpp.cpp, `perform_read_operation` and `perform_write_operation` under a
-- `std::shared_mutex`: who is inside.
use context_switching.Prelude.{
  ℕ, ◌+◌, ◌≤◌, ◌<◌, ◌≡◌, ◌≢◌, refl, ap, subst, subst⁻¹, Bool, true, false, arith,
}
use context_switching.Prelude.Double.{Double}
use context_switching.Prelude.Threads.{put, weigh, weigh-put, weigh_none, put_other}
use context_switching.Lock.Statistics.{ThreadStatistics}
use context_switching.Lock.Workload.{Operation, reading, writing}
use context_switching.Lock.ReadWrite.{
  Protected, IsFree, granted, given_back, Position, looping, trying, blocked, contended, acquired,
  timed, working, counting, leaving, released, ended, Advance, again, quit, try_locks, try_fails,
  lock, note_contention, note_wait, note_acquisition, read, write, count, unlock, note_operation,
  Crowd, work, time_over, Reached, start, later, reads, writes,
}

abbrev bit : Bool → ℕ
bit false = 0
bit true = 1

bit-le : (b : Bool) → bit b ≤ 1
bit-le b = ground arith

bit-true : (b : Bool) → bit b ≡ 1 → b ≡ true
bit-true b h = ground (arith, h)

-- What a worker inside for the second operation adds to the count of the first.
abbrev share : Operation → Operation → ℕ
share reading reading = 1
share writing writing = 1
share _ _ = 0

inside-reads :
    (o : Operation)
    → (reads (acquired o) ≡ share reading o) × (reads (contended o) ≡ share reading o)
inside-reads reading = (refl, refl)
inside-reads writing = (refl, refl)

inside-writes :
    (o : Operation)
    → (writes (acquired o) ≡ share writing o) × (writes (contended o) ≡ share writing o)
inside-writes reading = (refl, refl)
inside-writes writing = (refl, refl)

-- The mutex knows how many are inside, and never lets a writer in with a reader.
record Counted (n : ℕ) (m : Protected) (position : ℕ → Position) : Type 0 where
  reading_now : weigh reads n position ≡ m.readers
  writing_now : weigh writes n position ≡ bit m.writer
  apart : m.writer ≡ true → m.readers ≡ 0

module _ {n : ℕ} (i : ℕ) (f : ℕ → Position) (l : i < n) where
  replaced :
      (w : Position → ℕ) (p p' : Position)
      → f i ≡ p
      → weigh w n (put i p' f) + w p ≡ weigh w n f + w p'
  replaced w p p' e =
      subst (λ q. weigh w n (put i p' f) + w q ≡ weigh w n f + w p') e (weigh-put w n i p' f l)

  -- A step that leaves the mutex alone.
  same-Counted :
      {m m' : Protected} (p p' : Position)
      → f i ≡ p
      → reads p' ≡ reads p
      → writes p' ≡ writes p
      → m'.readers ≡ m.readers
      → m'.writer ≡ m.writer
      → Counted n m f
      → Counted n m' (put i p' f)
  same-Counted {m} {m'} p p' e a b r w c = record {
    reading_now = omega (arith, c.reading_now, replaced reads p p' e, a, r);
    writing_now =
        subst⁻¹ (λ x. weigh writes n (put i p' f) ≡ bit x) w
          (omega (arith, c.writing_now, replaced writes p p' e, b));
    apart = λ h. ground (arith, c.apart, r, w, h);
  }

  enter-Counted :
      {m : Protected} (o : Operation) (p p' : Position)
      → f i ≡ p
      → reads p ≡ 0
      → writes p ≡ 0
      → reads p' ≡ share reading o
      → writes p' ≡ share writing o
      → IsFree o m
      → Counted n m f
      → Counted n (granted o m) (put i p' f)
  enter-Counted {m} reading p p' e a b a' b' h c = record {
    reading_now = omega (arith, c.reading_now, replaced reads p p' e, a, a');
    writing_now = omega (arith, c.writing_now, replaced writes p p' e, b, b');
    apart = λ k. absurd (ground (arith, h, k));
  }
  enter-Counted {m} writing p p' e a b a' b' (h, z) c = record {
    reading_now = omega (arith, c.reading_now, replaced reads p p' e, a, a');
    writing_now = ground (arith, c.writing_now, replaced writes p p' e, b, b', h);
    apart = λ k. z;
  }

  leave-Counted :
      {m : Protected} (o : Operation)
      → f i ≡ leaving o
      → Counted n m f
      → Counted n (given_back o m) (put i (released o) f)
  leave-Counted {m} reading e c = record {
    reading_now =
        omega (arith, c.reading_now, replaced reads (leaving reading) (released reading) e);
    writing_now =
        omega (arith, c.writing_now, replaced writes (leaving reading) (released reading) e);
    apart = λ k. omega (arith, c.apart k);
  }
  leave-Counted {m} writing e c = record {
    reading_now =
        omega (arith, c.reading_now, replaced reads (leaving writing) (released writing) e);
    writing_now = ground (
      arith,
      c.writing_now,
      replaced writes (leaving writing) (released writing) e,
      bit-le m.writer,
    );
    apart = λ k. absurd (ground (arith, k));
  }

module _ {F : Double} {n : ℕ} where
  Advance-Counted :
      {m m' : Protected} {s s' : ThreadStatistics F} {p' : Position} (i : ℕ) (f : ℕ → Position)
      {p : Position}
      → i < n
      → f i ≡ p
      → Advance F m s p m' s' p'
      → Counted n m f
      → Counted n m' (put i p' f)
  Advance-Counted i f l e (again o h) c =
      same-Counted i f l looping (trying o) e refl refl refl refl c
  Advance-Counted i f l e (quit h) c = same-Counted i f l looping ended e refl refl refl refl c
  Advance-Counted i f l e (try_locks o h) c =
      enter-Counted i f l o (trying o) (acquired o) e refl refl (inside-reads o).0
        (inside-writes o).0 h c
  Advance-Counted i f l e (try_fails o) c =
      same-Counted i f l (trying o) (blocked o) e refl refl refl refl c
  Advance-Counted i f l e (lock o h) c =
      enter-Counted i f l o (blocked o) (contended o) e refl refl (inside-reads o).1
        (inside-writes o).1 h c
  Advance-Counted i f l e (note_contention o) c =
      same-Counted i f l (contended o) (acquired o) e (ground arith) (ground arith) refl refl c
  Advance-Counted i f l e (note_wait o time) c =
      same-Counted i f l (acquired o) (timed o) e (ground arith) (ground arith) refl refl c
  Advance-Counted i f l e (note_acquisition o) c =
      same-Counted i f l (timed o) (working o) e (ground arith) (ground arith) refl refl c
  Advance-Counted i f l e (read index b) c =
      same-Counted i f l (working reading) (leaving reading) e refl refl refl refl c
  Advance-Counted i f l e (write index value b) c =
      same-Counted i f l (working writing) counting e refl refl refl refl c
  Advance-Counted i f l e count c =
      same-Counted i f l counting (leaving writing) e refl refl refl refl c
  Advance-Counted i f l e (unlock o) c = leave-Counted i f l o e c
  Advance-Counted i f l e (note_operation o time) c =
      same-Counted i f l (released o) looping e refl refl refl refl c

  Reached-Counted : {s : Crowd F} → Reached F n s → Counted n s.mem s.position
  Reached-Counted start = record {
    reading_now = weigh_none reads n (λ _. looping) (λ i l. refl);
    writing_now = weigh_none writes n (λ _. looping) (λ i l. refl);
    apart = λ h. refl;
  }
  Reached-Counted (later {s} r (work i l step)) =
      Advance-Counted i s.position l refl step (Reached-Counted r)
  Reached-Counted (later r time_over) = record {
    reading_now = (Reached-Counted r).reading_now;
    writing_now = (Reached-Counted r).writing_now;
    apart = (Reached-Counted r).apart;
  }

weight-le :
    (w : Position → ℕ) (n i : ℕ) (f : ℕ → Position) → w ended ≡ 0 → i < n → w (f i) ≤ weigh w n f
weight-le w n i f z l = omega (arith, weigh-put w n i ended f l, z)

two_weights :
    (w : Position → ℕ) (n i j : ℕ) (f : ℕ → Position)
    → w ended ≡ 0
    → i < n
    → j < n
    → j ≢ i
    → w (f i) + w (f j) ≤ weigh w n f
two_weights w n i j f z l k d =
    let small = weight-le w n j (put i ended f) z k in
    let other = ap w (put_other i j ended f d) in
    omega (arith, weigh-put w n i ended f l, z, small, other)

-- In every state that n workers reach: while one of them is between the locking for a write and its end,
-- no other is between the locking for a read or a write and its end.
pub writer_alone :
    {F : Double} {n : ℕ} {s : Crowd F} (i j : ℕ)
    → Reached F n s
    → i < n
    → j < n
    → j ≢ i
    → writes (s.position i) ≡ 1
    → (reads (s.position j) ≡ 0) × (writes (s.position j) ≡ 0)
writer_alone {n} {s} i j r l k d h =
    let c = Reached-Counted r in
    let held = weight-le writes n i s.position refl l in
    let beside = two_weights writes n i j s.position refl l k d in
    let reader = weight-le reads n j s.position refl k in
    let one = bit-le s.mem.writer in
    let none = c.apart (bit-true s.mem.writer (omega (arith, c.writing_now, held, h, one))) in
    (omega (arith, c.reading_now, reader, none), omega (arith, c.writing_now, beside, h, one))
