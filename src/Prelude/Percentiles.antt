-- ===== src/Prelude/Percentiles.antt =====
-- Percentiles of a sorted list: which elements the tools take, and that these are in order.
use context_switching.Prelude.{
  ℕ, ◌-◌, ◌≤◌, ◌<◌, ◌≡◌, refl, false, List, [], ◌∷◌, Option, some, ◌>>=◌, arith, leb, if◌then◌else◌,
  length, get_elem?, get_elem?_total, All,
}
use context_switching.Prelude.Double.{Double, literal, IsOrdered, IsMonotone}
use context_switching.Prelude.Sort.{sort, IsSorted, sort-IsSorted, IsSorted-get, length-sort}

abbrev pub asked : List ℕ
asked = 50 ∷ 75 ∷ 90 ∷ 95 ∷ 99 ∷ []

module _ (F : Double) where
  open F use {Num, of_nat, mul, lt, trunc}

  -- The place p / 100 in a list of `size` times, the last one at most.
  unfoldable pub percentile_index : ℕ → ℕ → ℕ
  percentile_index size p =
      let index = trunc (mul (literal F p 100) (of_nat size)) in
      if leb size index then size - 1 else index

  unfoldable pub percentiles_at : List Num → List ℕ → Option (List Num)
  percentiles_at sorted [] = some []
  percentiles_at sorted (p ∷ ps) = do
    time ← get_elem? sorted (percentile_index (length sorted) p)
    rest ← percentiles_at sorted ps
    some (time ∷ rest)

  -- `a` stands at the place of the percentile `p`.
  abbrev pub At : List Num → ℕ → Num → Type 0
  At sorted p a = get_elem? sorted (percentile_index (length sorted) p) ≡ some a

  abbrev pub AllAt : List Num → List ℕ → List Num → Type 0
  AllAt sorted [] [] = Unit
  AllAt sorted (p ∷ ps) (a ∷ found) = At sorted p a × AllAt sorted ps found
  AllAt sorted _ _ = ⊥

  percentile_index-lt : (size p : ℕ) → 0 < size → percentile_index size p < size
  unfolding percentile_index
  percentile_index-lt size p h = ground arith

  pub percentiles_total :
      (sorted : List Num) (ps : List ℕ)
      → 0 < length sorted
      → (found : List Num) × (percentiles_at sorted ps ≡ some found) × AllAt sorted ps found
  unfolding percentiles_at
  percentiles_total sorted [] h = ([], refl, tt)
  percentiles_total sorted (p ∷ ps) h =
      let (a, here) = get_elem?_total sorted _ (percentile_index-lt (length sorted) p h) in
      let (found, rest, all) = percentiles_total sorted ps h in
      (a ∷ found, rw (here, rest), (here, all))

  percentile_index-le :
      (monotone : IsMonotone F) (size p q : ℕ)
      → p ≤ q
      → q ≤ 100
      → percentile_index size p ≤ percentile_index size q
  unfolding percentile_index
  percentile_index-le monotone size p q h l = ground (arith, monotone.trunc-mul-le size p q h l)

  -- The places are in order, and none is above 100.
  abbrev Ascending : ℕ → List ℕ → Type 0
  Ascending least [] = Unit
  Ascending least (p ∷ ps) = (least ≤ p) × (p ≤ 100) × Ascending p ps

  module _ (ordered : IsOrdered F) (monotone : IsMonotone F) (sorted : List Num)
      (in_order : IsSorted lt sorted) where
    none_smaller :
        (p q : ℕ) (a : Num) (ps : List ℕ) (found : List Num)
        → p ≤ q
        → At sorted p a
        → Ascending q ps
        → AllAt sorted ps found
        → All (λ b. lt b a ≡ false) found
    none_smaller p q a [] [] l here up all = tt
    none_smaller p q a [] (b ∷ found) l here up all = absurd all
    none_smaller p q a (r ∷ ps) [] l here up all = absurd all
    none_smaller p q a (r ∷ ps) (b ∷ found) l here up all = (
      IsSorted-get lt ordered.asym ordered.negative_trans sorted _ _ in_order
          (percentile_index-le monotone (length sorted) p r (omega arith) up.1) here all.0,
      none_smaller p r a ps found (omega arith) here up.2 all.1,
    )

    pub AllAt-IsSorted :
        (least : ℕ) (ps : List ℕ) (found : List Num)
        → Ascending least ps
        → AllAt sorted ps found
        → IsSorted lt found
    AllAt-IsSorted least [] [] up all = tt
    AllAt-IsSorted least [] (b ∷ found) up all = absurd all
    AllAt-IsSorted least (r ∷ ps) [] up all = absurd all
    AllAt-IsSorted least (r ∷ ps) (b ∷ found) up all = (
      none_smaller r r b ps found (omega arith) all.0 up.2 all.1,
      AllAt-IsSorted r ps found up.2 all.1,
    )

-- The percentiles of at least one time: read within bounds, each at its place, and in order.
pub percentiles_lem :
    (F : Double)
    → IsOrdered F
    → IsMonotone F
    → (times : List F.Num) → 0 < length times
    → (found : List F.Num) × (percentiles_at F (sort F.lt times) asked ≡ some found)
      × AllAt F (sort F.lt times) asked found
      × IsSorted F.lt found
percentiles_lem F ordered monotone times h =
    let sorted = sort F.lt times in
    let (found, read, all) =
      percentiles_total F sorted asked (omega (arith, length-sort F.lt times)) in
    let in_order = sort-IsSorted F.lt ordered.asym ordered.negative_trans times in
    (
      found,
      read,
      all,
      AllAt-IsSorted F ordered monotone sorted in_order 50 asked found (omega arith) all,
    )
