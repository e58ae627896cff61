-- ===== src/Prelude/Occurrences.antt =====
-- How often a number occurs in a list, and the lists of consecutive numbers.
use mathlib.Core.Logic.{∥∥₁_elim}
use mathlib.Core.List.{Perm, Permᴰ}
use native.Mathlib.Nat.{ℕ_set}
use context_switching.Prelude.{
  ℕ, zero, suc, ◌+◌, ◌<◌, ◌≡◌, refl, ◌∙◌, List, [], ◌∷◌, ◌==◌, ◌&&◌, leb, ltb, if◌then◌else◌, All,
  arith, length,
}

abbrev pub count : ℕ → List ℕ → ℕ
count a [] = 0
count a (x ∷ xs) = (if a == x then 1 else 0) + count a xs

-- n numbers from k on, as `std::iota` writes them.
abbrev pub iota : ℕ → ℕ → List ℕ
iota k zero = []
iota k (suc n) = k ∷ iota (suc k) n

count-Permᴰ : (a : ℕ) (xs ys : List ℕ) → Permᴰ xs ys → count a xs ≡ count a ys
count-Permᴰ a xs ys Permᴰ.nil = refl
count-Permᴰ a xs ys (Permᴰ.cons {l₁ = us} {l₂ = vs} e p) = ground (arith, e, count-Permᴰ a us vs p)
count-Permᴰ a xs ys (Permᴰ.swap e f) = ground (arith, e, f)
count-Permᴰ a xs ys (Permᴰ.trans {l₂ = us} p q) = count-Permᴰ a xs us p ∙ count-Permᴰ a us ys q

pub count-Perm : (a : ℕ) (xs ys : List ℕ) → Perm xs ys → count a xs ≡ count a ys
count-Perm a xs ys p = ∥∥₁_elim p (ℕ_set _ _) (λ d. count-Permᴰ a xs ys d)

pub count-iota : (a n k : ℕ) → count a (iota k n) ≡ (if leb k a && ltb a (k + n) then 1 else 0)
count-iota a zero k = ground arith
count-iota a (suc n) k = ground (arith, count-iota a n (suc k))

pub All-of_count : (P : ℕ → Type 0) (xs : List ℕ) → ((a : ℕ) → 0 < count a xs → P a) → All P xs
All-of_count P [] h = tt
All-of_count P (x ∷ xs) h = (h x (ground arith), All-of_count P xs (λ a l. h a (ground arith)))

length-Permᴰ {ℓ} : {A : Type ℓ} (xs ys : List A) → Permᴰ xs ys → length xs ≡ length ys
length-Permᴰ xs ys Permᴰ.nil = refl
length-Permᴰ xs ys (Permᴰ.cons {l₁ = us} {l₂ = vs} e p) = omega (arith, length-Permᴰ us vs p)
length-Permᴰ xs ys (Permᴰ.swap e f) = refl
length-Permᴰ xs ys (Permᴰ.trans {l₂ = us} p q) = length-Permᴰ xs us p ∙ length-Permᴰ us ys q

pub length-Perm {ℓ} : {A : Type ℓ} (xs ys : List A) → Perm xs ys → length xs ≡ length ys
length-Perm xs ys p = ∥∥₁_elim p (ℕ_set _ _) (λ d. length-Permᴰ xs ys d)
