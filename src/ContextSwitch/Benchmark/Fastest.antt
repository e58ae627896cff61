-- ===== src/ContextSwitch/Benchmark/Fastest.antt =====
-- src/context_switch_cpp.cpp, `print_summary`: the fastest method.
use context_switching.Prelude.{
  ℕ, suc, ◌≡◌, refl, sym, ap, subst, ◌∙◌, ◌⊎◌, inl, inr, Bool, true, false, List, [], ◌∷◌, some,
  All, Bool-cases, get_elem?, accumulate, arith,
}
use context_switching.ContextSwitch.Benchmark.{smaller, min_element}

module _ {ℓ} {A : Type ℓ} (less : A → A → Bool)
    (asym : (a b : A) → less a b ≡ true → less b a ≡ false)
    (negative_trans : (a b c : A) → less b a ≡ false → less c b ≡ false → less c a ≡ false) where
  irreflexive : (a : A) → less a a ≡ false
  irreflexive a = ground (arith, asym a a)

  -- What the loop ends with stands in the list, unless it is the start, and nothing is less.
  smallest :
      (best : A) (xs : List A)
      → let last = accumulate (smaller less) best xs in
        ((best ≡ last) ⊎ ((i : ℕ) × (get_elem? xs i ≡ some last)))
        × (less best last ≡ false)
        × All (λ a. less a last ≡ false) xs
  smallest best [] = (inl refl, irreflexive best, tt)
  smallest best (x ∷ xs) =
      let following = smaller less best x in
      let last = accumulate (smaller less) following xs in
      let (p, l, all) = smallest following xs in
      elim (Bool-cases (less x best)) [
        | inl e ↦
            let same : following ≡ x = ground (arith, e) in
            let here = subst (λ b. less b last ≡ false) same l in
            (
              elim p [ inl f ↦ inr (0, ap some (sym same ∙ f)) | inr (i, f) ↦ inr (suc i, f) ],
              negative_trans last x best here (asym x best e),
              (here, all),
            )
        | inr e ↦
            let same : following ≡ best = ground (arith, e) in
            let here = subst (λ b. less b last ≡ false) same l in
            (
              elim p [ inl f ↦ inl (sym same ∙ f) | inr (i, f) ↦ inr (suc i, f) ],
              here,
              (negative_trans last best x here e, all),
            )
      ]

  pub min_element_lem :
      (a : A) (rest : List A)
      → (best : A) × (i : ℕ) × (min_element less (a ∷ rest) ≡ some best)
        × (get_elem? (a ∷ rest) i ≡ some best)
        × All (λ b. less b best ≡ false) (a ∷ rest)
  min_element_lem a rest =
      let (p, l, all) = smallest a rest in
      elim p [
        | inl f ↦ (accumulate (smaller less) a rest, 0, refl, ap some f, (l, all))
        | inr (i, f) ↦ (accumulate (smaller less) a rest, suc i, refl, f, (l, all))
      ]
