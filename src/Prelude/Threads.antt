-- ===== src/Prelude/Threads.antt =====
-- Families indexed by the number of a thread: one entry replaced, and sums over the first `n`.
use mathlib.Core.Logic.{ite}
use native.Mathlib.Decide.{ℕ_discrete, dec_lt}
use context_switching.Prelude.{ℕ, zero, suc, ◌+◌, ◌≤◌, ◌<◌, ◌≡◌, refl, arith}

module _ {ℓ} {A : Type ℓ} where
  -- The family that has `a` at `i` and is `f` elsewhere.
  abbrev pub put : ℕ → A → (ℕ → A) → ℕ → A
  put i a f j = ite (ℕ_discrete j i) a (f j)

  -- The weights of the threads below `n`, added up.
  pub weigh : (A → ℕ) → ℕ → (ℕ → A) → ℕ
  weigh w zero f = 0
  weigh w (suc n) f = w (f n) + weigh w n f

  pub weigh_none :
      (w : A → ℕ) (n : ℕ) (f : ℕ → A) → ((i : ℕ) → i < n → w (f i) ≡ 0) → weigh w n f ≡ 0
  unfolding weigh
  weigh_none w zero f h = refl
  weigh_none w (suc n) f h =
      let rest = weigh_none w n f (λ i l. h i (omega arith)) in
      omega (arith, rest, h n (omega arith))

  weigh_above :
      (w : A → ℕ) (n i : ℕ) (a : A) (f : ℕ → A) → n ≤ i → weigh w n (put i a f) ≡ weigh w n f
  unfolding weigh
  weigh_above w zero i a f h = refl
  weigh_above w (suc n) i a f h = ground (arith, weigh_above w n i a f)

  -- Replacing one entry exchanges its weight.
  pub weigh-put :
      (w : A → ℕ) (n i : ℕ) (a : A) (f : ℕ → A)
      → i < n
      → weigh w n (put i a f) + w (f i) ≡ weigh w n f + w a
  unfolding weigh
  weigh-put w zero i a f h = absurd (omega arith)
  weigh-put w (suc n) i a f h = elim (dec_lt i n) [
    | yes l ↦ ground (arith, weigh-put w n i a f l)
    | no l ↦ ground (arith, weigh_above w n i a f)
  ]

-- What holds of the new entries and of the old ones holds of the families with one entry replaced.
ite_both {ℓ} :
    {A B P : Type ℓ} (R : A → B → Type ℓ) (d : Dec P) {a x : A} {b y : B}
    → R a b
    → R x y
    → R (ite d a x) (ite d b y)
ite_both R (yes e) new old = new
ite_both R (no e) new old = old

pub put_both :
    {A B : Type 0} (R : A → B → Type 0) (i j : ℕ) {a : A} {b : B} (f : ℕ → A) (g : ℕ → B)
    → R a b
    → R (f j) (g j)
    → R (put i a f j) (put i b g j)
put_both R i j f g new old = ite_both R (ℕ_discrete j i) new old

pub put_same {ℓ} : {A : Type ℓ} (i : ℕ) (a : A) (f : ℕ → A) → put i a f i ≡ a
put_same i a f = ground arith

pub put_other {ℓ} : {A : Type ℓ} (i j : ℕ) (a : A) (f : ℕ → A) → ¬ (j ≡ i) → put i a f j ≡ f j
put_other i j a f h = ground (arith, h)

pub weigh-suc {ℓ} :
    {A : Type ℓ} (w : A → ℕ) (n : ℕ) (f : ℕ → A) → weigh w (suc n) f ≡ w (f n) + weigh w n f
unfolding weigh
weigh-suc w n f = refl

pub weigh-zero {ℓ} : {A : Type ℓ} (w : A → ℕ) (f : ℕ → A) → weigh w 0 f ≡ 0
unfolding weigh
weigh-zero w f = refl
