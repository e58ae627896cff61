-- ===== src/Lock/Spin/Progress.antt =====
-- src/lock_visualizer_cpp.cpp, `SpinLock` and `perform_write_operation`: a thread that waits for the
-- lock can get it.
use context_switching.Prelude.{
  ℕ, zero, suc, ◌<◌, ◌≡◌, refl, ap, subst⁻¹, ◌∙◌, ◌⊎◌, inl, inr, true, false, arith,
}
use context_switching.Prelude.Double.{Double}
use context_switching.Prelude.Threads.{put, put_same, put_other}
use context_switching.Lock.Statistics.{ThreadStatistics}
use context_switching.Lock.Spin.{
  Shared, Place, contended, acquired, timed, writing, counting, leaving, released, looping, ended,
  trying, spinning, Move, try_free, spin_free, note_contention, note_wait, note_acquisition, write,
  count, unlock, System, Step, work, Reach, holds,
}
use context_switching.Lock.Spin.Safety.{Reach-Owned}

pub data Steps {F : Double} (n : ℕ) (s : System F) : System F → Type 0 where
  done : Steps n s s
  next : {t u : System F} → Steps n s t → Step F n t u → Steps n s u

-- The steps that a holder still has to take before the flag is clear.
abbrev remaining : Place → ℕ
remaining contended = 6
remaining acquired = 5
remaining timed = 4
remaining writing = 3
remaining counting = 2
remaining leaving = 1
remaining _ = 0

before : {F : Double} {n : ℕ} {s t u : System F} → Step F n s t → Steps n t u → Steps n s u
before k done = next done k
before k (next r l) = next (before k r) l

remaining-holds : {k : ℕ} (p : Place) → remaining p ≡ suc k → holds p ≡ true
remaining-holds p e = grind (arith, e)

abbrev moved : {F : Double} → System F → ℕ → Shared → ThreadStatistics F → Place → System F
moved s i m t p = record { mem = m; place = put i p s.place; stats = put i t s.stats }

holds-remaining : (p : Place) → holds p ≡ true → (k : ℕ) × (remaining p ≡ suc k)
holds-remaining contended h = (5, refl)
holds-remaining acquired h = (4, refl)
holds-remaining timed h = (3, refl)
holds-remaining writing h = (2, refl)
holds-remaining counting h = (1, refl)
holds-remaining leaving h = (0, refl)
holds-remaining _ h = absurd (ground (arith, h))

-- In `try_lock` or in the loop of `lock`.
abbrev pub AtLock : Place → Type 0
AtLock p = (p ≡ trying) ⊎ (p ≡ spinning)

waiting_free : {p : Place} → AtLock p → ¬ (holds p ≡ true)
waiting_free w h = grind (arith, w, h)

module _ {F : Double} where
  record Advance (m : Shared) (s : ThreadStatistics F) (p : Place) : Type 0 where
    mem' : Shared
    stats' : ThreadStatistics F
    place' : Place
    move : Move F m s p mem' stats' place'
    fewer : suc (remaining place') ≡ remaining p
    clear : remaining place' ≡ 0 → mem'.flag ≡ false

  idle : {m : Shared} {s : ThreadStatistics F} {p : Place} → false ≡ true → Advance m s p
  idle h = absurd (ground (arith, h))

  holder_advances :
      (m : Shared) (s : ThreadStatistics F) (p : Place) → holds p ≡ true → Advance m s p
  holder_advances m s contended h = record {
    mem' = m;
    stats' = _;
    place' = acquired;
    move = note_contention;
    fewer = refl;
    clear = λ e. absurd (omega (arith, e));
  }
  holder_advances m s acquired h = record {
    mem' = m;
    stats' = _;
    place' = timed;
    move = note_wait (F.of_nat 0);
    fewer = refl;
    clear = λ e. absurd (omega (arith, e));
  }
  holder_advances m s timed h = record {
    mem' = m;
    stats' = _;
    place' = writing;
    move = note_acquisition;
    fewer = refl;
    clear = λ e. absurd (omega (arith, e));
  }
  holder_advances m s writing h = record {
    mem' = _;
    stats' = s;
    place' = counting;
    move = write 0 0 (omega arith);
    fewer = refl;
    clear = λ e. absurd (omega (arith, e));
  }
  holder_advances m s counting h = record {
    mem' = _;
    stats' = s;
    place' = leaving;
    move = count;
    fewer = refl;
    clear = λ e. absurd (omega (arith, e));
  }
  holder_advances m s leaving h = record {
    mem' = _;
    stats' = s;
    place' = released;
    move = unlock;
    fewer = refl;
    clear = λ e. refl;
  }
  holder_advances m s looping h = idle h
  holder_advances m s trying h = idle h
  holder_advances m s spinning h = idle h
  holder_advances m s released h = idle h
  holder_advances m s ended h = idle h

  -- What is left when a holder has gone on until the flag is clear.
  record Freed (n o : ℕ) (s : System F) : Type 0 where
    last : System F
    run : Steps n s last
    clear : last.mem.flag ≡ false
    others : (j : ℕ) → ¬ (j ≡ o) → last.place j ≡ s.place j

  module _ {n o : ℕ} {s : System F} (l : o < n) (a : Advance s.mem (s.stats o) (s.place o)) where
    free_now : remaining a.place' ≡ 0 → Freed n o s
    free_now e = record {
      last = moved s o a.mem' a.stats' a.place';
      run = next done (work o l a.move);
      clear = a.clear e;
      others = λ j d. put_other o j _ s.place d;
    }

    free_later : Freed n o (moved s o a.mem' a.stats' a.place') → Freed n o s
    free_later f = record {
      last = f.last;
      run = before (work o l a.move) f.run;
      clear = f.clear;
      others = λ j d. f.others j d ∙ put_other o j _ s.place d;
    }

  holder_frees : (k n o : ℕ) (s : System F) → o < n → remaining (s.place o) ≡ suc k → Freed n o s
  holder_frees zero n o s l e =
      let a = holder_advances s.mem (s.stats o) (s.place o) (remaining-holds _ e) in
      free_now l a (omega (arith, a.fewer, e))
  holder_frees (suc k) n o s l e =
      let a = holder_advances s.mem (s.stats o) (s.place o) (remaining-holds _ e) in
      free_later l a
        (holder_frees k n o _ l (ap remaining (put_same o _ s.place) ∙ omega (arith, a.fewer, e)))

  -- Runs after which thread `i` has the lock.
  pub data CanLock (n i : ℕ) (s : System F) : Type 0 where
    can_lock : {t : System F} → Steps n s t → holds (t.place i) ≡ true → CanLock n i s

  free_CanLock :
      {n i : ℕ} {s t : System F}
      → i < n
      → Steps n s t
      → t.mem.flag ≡ false
      → AtLock (t.place i)
      → CanLock n i s
  free_CanLock {n} {i} {s} {t} l r f (inl e) =
      can_lock
        (next r (
          work i l (
            subst⁻¹
              (λ p. Move F t.mem (t.stats i) p (record t.mem { flag = true }) (t.stats i) acquired)
              e (try_free f))))
        (ap holds (put_same i _ t.place))
  free_CanLock {n} {i} {s} {t} l r f (inr e) =
      can_lock
        (next r (
          work i l (
            subst⁻¹
              (λ p. Move F t.mem (t.stats i) p (record t.mem { flag = true }) (t.stats i) contended)
              e (spin_free f))))
        (ap holds (put_same i _ t.place))

  -- In every state that n workers reach, a thread that waits for the lock can get it: some steps
  -- lead to a state in which it holds the lock.
  pub waiting-CanLock :
      {n : ℕ} {s : System F} (i : ℕ) → Reach F n s → i < n → AtLock (s.place i) → CanLock n i s
  waiting-CanLock {n} {s} i r l w = elim (Reach-Owned r) [
    | inl (c, none) ↦ free_CanLock l done c w
    | inr (o, c, b, held, only) ↦
        let (k, e) = holds-remaining (s.place o) held in
        let f = holder_frees k n o s b e in
        free_CanLock l f.run f.clear
          (subst⁻¹ AtLock (f.others i (λ d. waiting_free w (ap holds (ap s.place d) ∙ held))) w)
  ]
