-- ===== src/Prelude/Lists.antt =====
-- Lists measured and indexed by native numbers, under the library's names.
use Prim.Native.Nat.{ℕ, zero, suc, ◌+◌, ◌≤◌, ◌<◌, max}
use mathlib.Core.Bool.{Bool, true, false}
use mathlib.Core.Path.{◌≡◌, refl, ap}
use mathlib.Core.List.{List, [], ◌∷◌, ◌++◌, map}
use mathlib.Core.Option.{Option, none, some}
use native.Mathlib.Omega.{arith}

module _ {ℓ} {A : Type ℓ} where
  abbrev pub length : List A → ℕ
  length [] = 0
  length (x ∷ xs) = suc (length xs)

  abbrev pub get_elem? : List A → ℕ → Option A
  get_elem? [] i = none
  get_elem? (x ∷ xs) zero = some x
  get_elem? (x ∷ xs) (suc i) = get_elem? xs i

  abbrev pub replicate : ℕ → A → List A
  replicate zero a = []
  replicate (suc n) a = a ∷ replicate n a

  -- `none` is a write out of bounds, which the language leaves undefined.
  abbrev pub modify? : List A → ℕ → (A → A) → Option (List A)
  modify? [] i f = none
  modify? (x ∷ xs) zero f = some (f x ∷ xs)
  modify? (x ∷ xs) (suc i) f = elim (modify? xs i f) [ none ↦ none | some ys ↦ some (x ∷ ys) ]

  abbrev pub is_empty : List A → Bool
  is_empty [] = true
  is_empty (x ∷ xs) = false

  -- A loop over the elements in order that updates `acc`.
  abbrev pub accumulate {κ} : {B : Type κ} → (B → A → B) → B → List A → B
  accumulate f acc [] = acc
  accumulate f acc (x ∷ xs) = accumulate f (f acc x) xs

  abbrev pub All {κ} : (A → Type κ) → List A → Type κ
  All P [] = Unit
  All P (x ∷ xs) = P x × All P xs

module _ {ℓ} {A : Type ℓ} where
  pub length-append : (xs ys : List A) → length (xs ++ ys) ≡ length xs + length ys
  length-append [] ys = omega arith
  length-append (x ∷ xs) ys = omega (arith, length-append xs ys)

  pub length-replicate : (n : ℕ) (a : A) → length (replicate n a) ≡ n
  length-replicate zero a = refl
  length-replicate (suc n) a = ap suc (length-replicate n a)

  pub length-map {κ} : {B : Type κ} (f : A → B) (xs : List A) → length (map f xs) ≡ length xs
  length-map f [] = refl
  length-map f (x ∷ xs) = ap suc (length-map f xs)

  -- An access in bounds succeeds.
  pub get_elem?_total : (xs : List A) (i : ℕ) → i < length xs → (a : A) × (get_elem? xs i ≡ some a)
  get_elem?_total [] i h = elim h [ ]
  get_elem?_total (x ∷ xs) zero h = (x, refl)
  get_elem?_total (x ∷ xs) (suc i) h = get_elem?_total xs i (omega arith)

  -- A write in bounds succeeds and leaves the length.
  pub modify?_total :
      (xs : List A) (i : ℕ) (f : A → A)
      → i < length xs
      → (ys : List A) × (modify? xs i f ≡ some ys) × (length ys ≡ length xs)
  modify?_total [] i f h = elim h [ ]
  modify?_total (x ∷ xs) zero f h = (f x ∷ xs, refl, refl)
  modify?_total (x ∷ xs) (suc i) f h =
      let (ys, e, l) = modify?_total xs i f (omega arith) in (x ∷ ys, rw e refl, ap suc l)

  pub get_elem?-All {κ} :
      (P : A → Type κ) (xs : List A) (i : ℕ) {a : A} → All P xs → get_elem? xs i ≡ some a → P a
  get_elem?-All P [] i h e = cc
  get_elem?-All P (x ∷ xs) zero h e = ground (arith, h)
  get_elem?-All P (x ∷ xs) (suc i) h e = get_elem?-All P xs i h.1 e

  pub All-map {κ μ} :
      {P : A → Type κ} {Q : A → Type μ} (f : (a : A) → P a → Q a) (xs : List A)
      → All P xs
      → All Q xs
  All-map f [] h = tt
  All-map f (x ∷ xs) h = (f x h.0, All-map f xs h.1)

  pub All-append {κ} : (P : A → Type κ) (xs ys : List A) → All P xs → All P ys → All P (xs ++ ys)
  All-append P [] ys h k = k
  All-append P (x ∷ xs) ys h k = (h.0, All-append P xs ys h.1 k)

  pub All-of_get {κ} :
      (P : A → Type κ) (xs : List A)
      → ((i : ℕ) (a : A) → i < length xs → get_elem? xs i ≡ some a → P a)
      → All P xs
  All-of_get P [] h = tt
  All-of_get P (x ∷ xs) h =
      (h 0 x (omega arith) refl, All-of_get P xs (λ i a l e. h (suc i) a (omega arith) e))

abbrev pub sum : List ℕ → ℕ
sum [] = 0
sum (x ∷ xs) = x + sum xs

-- The value at `std::max_element`, with 0 for no element at all.
abbrev pub max_element : List ℕ → ℕ
max_element [] = 0
max_element (x ∷ xs) = max x (max_element xs)

pub max_element-All : (xs : List ℕ) → All (λ x. x ≤ max_element xs) xs
max_element-All [] = tt
max_element-All (x ∷ xs) = (omega arith, All-map (λ y h. omega arith) xs (max_element-All xs))

pub max_element-le-sum : (xs : List ℕ) → max_element xs ≤ sum xs
max_element-le-sum [] = omega arith
max_element-le-sum (x ∷ xs) = omega (arith, max_element-le-sum xs)

-- A step of one counter adds one to the sum, and keeps the number of counters.
pub sum-modify? :
    (xs : List ℕ) (i : ℕ)
    → i < length xs
    → (ys : List ℕ) × (modify? xs i suc ≡ some ys)
      × (sum ys ≡ suc (sum xs))
      × (length ys ≡ length xs)
sum-modify? [] i h = elim h [ ]
sum-modify? (x ∷ xs) zero h = (suc x ∷ xs, refl, omega arith, refl)
sum-modify? (x ∷ xs) (suc i) h =
    let (ys, e, s, l) = sum-modify? xs i (omega arith) in (x ∷ ys, rw e, omega arith, ap suc l)

pub max_element-eq-zero : (xs : List ℕ) → max_element xs ≡ 0 → sum xs ≡ 0
max_element-eq-zero [] h = refl
max_element-eq-zero (x ∷ xs) h = omega (arith, max_element-eq-zero xs (omega arith))

pub sum-append : (xs ys : List ℕ) → sum (xs ++ ys) ≡ sum xs + sum ys
sum-append [] ys = omega arith
sum-append (x ∷ xs) ys = omega (arith, sum-append xs ys)
