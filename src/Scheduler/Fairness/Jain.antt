-- ===== src/Scheduler/Fairness/Jain.antt =====
-- src/scheduler_analyzer_cpp.cpp: the bounds of `calculate_jains_index` in exact arithmetic.
use native.Mathlib.Nat.{mul-le-mul_left}
use context_switching.Prelude.{
  ℕ, zero, suc, ◌+◌, ◌*◌, ◌≤◌, ◌<◌, ◌≡◌, ap, ◌∙◌, List, [], ◌∷◌, arith, map, length, length-map,
  accumulate, sum,
}
use context_switching.Prelude.Fraction.{Fraction, exact}
use context_switching.Scheduler.Fairness.{calculate_jains_index}

abbrev pub whole : ℕ → Fraction
whole n = record { num = n; den = 1 }

abbrev pub squares : List ℕ → ℕ
squares [] = 0
squares (x ∷ xs) = x * x + squares xs

-- Twice a product is at most the sum of the squares.
twice_product-le : (x y : ℕ) → 2 * (x * y) ≤ x * x + y * y
twice_product-le zero y = omega arith
twice_product-le (suc x) zero = omega arith
twice_product-le (suc x) (suc y) = omega (arith, twice_product-le x y)

twice_products-le : (x : ℕ) (ys : List ℕ) → 2 * (x * sum ys) ≤ length ys * (x * x) + squares ys
twice_products-le x [] = omega arith
twice_products-le x (y ∷ ys) = omega (arith, twice_product-le x y, twice_products-le x ys)

-- The Cauchy-Schwarz inequality against a list of ones.
square_of_sum-le : (xs : List ℕ) → sum xs * sum xs ≤ length xs * squares xs
square_of_sum-le [] = omega arith
square_of_sum-le (x ∷ xs) = omega (arith, square_of_sum-le xs, twice_products-le x xs)

squares-le : (xs : List ℕ) → squares xs ≤ sum xs * sum xs
squares-le [] = omega arith
squares-le (x ∷ xs) = omega (arith, squares-le xs)

sum_of_whole :
    (c : ℕ) (xs : List ℕ) → accumulate exact.add (whole c) (map whole xs) ≡ whole (c + sum xs)
sum_of_whole c [] = ground arith
sum_of_whole c (x ∷ xs) = sum_of_whole (c * 1 + x * 1) xs ∙ ap whole (omega arith)

squares_of_whole :
    (c : ℕ) (xs : List ℕ)
    → accumulate (λ acc v. exact.add acc (exact.mul v v)) (whole c) (map whole xs)
      ≡ whole (c + squares xs)
squares_of_whole c [] = ground arith
squares_of_whole c (x ∷ xs) = squares_of_whole (c * 1 + x * x * 1) xs ∙ ap whole (omega arith)

jains_index_of_whole :
    (xs : List ℕ)
    → 0 < sum xs
    → calculate_jains_index exact (map whole xs)
      ≡ exact.div
          (exact.mul (whole (sum xs)) (whole (sum xs)))
          (exact.mul (whole (length xs)) (whole (squares xs)))
unfolding calculate_jains_index
jains_index_of_whole [] h = absurd (omega arith)
jains_index_of_whole (x ∷ xs) h =
    rw
      (
        sum_of_whole (0 * 1 + x * 1) xs,
        squares_of_whole (0 * 1 + x * x * 1) xs,
        length-map whole xs,
      )
      (ground arith)

-- In exact arithmetic Jain's index of whole numbers that are not all 0 lies between 1 / n, for n
-- numbers, and 1.
pub jains_index_bounds :
    (xs : List ℕ)
    → 0 < sum xs
    → let j = calculate_jains_index exact (map exact.of_nat xs) in
      (0 < j.den) × (j.num ≤ j.den) × (j.den ≤ length xs * j.num)
jains_index_bounds xs h =
    let positive : 0 < sum xs * sum xs = grind arith in
    let smaller : length xs * squares xs ≤ length xs * (sum xs * sum xs) =
      mul-le-mul_left (length xs) (squares-le xs) in
    rw (jains_index_of_whole xs h) (omega (arith, square_of_sum-le xs))
