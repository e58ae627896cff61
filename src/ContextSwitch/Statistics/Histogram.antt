-- ===== src/ContextSwitch/Statistics/Histogram.antt =====
-- src/context_switch_cpp.cpp: what `ContextSwitchStats::print_histogram` draws.
use native.Mathlib.Nat.{div-lt_iff_lt-mul, div-eq_of_eq-mul_left}
use context_switching.Prelude.{
  ℕ, ◌+◌, ◌*◌, ◌/◌, ◌≤◌, ◌<◌, ◌≡◌, refl, sym, ◌∙◌, ap, length-map, false, List, [], ◌∷◌, some,
  arith, map, ltb, leb, true, ◌⊎◌, inl, inr, subst, Bool-cases, ◌==◌, length, sum, sum-modify?,
  max_element, max_element-All, max_element-eq-zero, max_element-le-sum, replicate, All,
}
use context_switching.Prelude.Double.{Double, IsOrdered, IsScaling, IsInterpolating}
use context_switching.Prelude.Occurrences.{length-Perm}
use context_switching.ContextSwitch.Statistics.{
  ContextSwitchStats, nothing, bars, buckets, int_limit, cast_bucket, calculate, bucket_of,
  fill_histogram, bar_length, draw, is_zero, print_histogram,
}
use context_switching.ContextSwitch.Statistics.Summary.{Summarises, calculate-Summarises}

-- The counts of a drawing, and its bars.
abbrev pub counts : List (ℕ × ℕ) → List ℕ
counts = map (λ b. b.1)

-- A bar is at most 50 long, and 50 long where its count is the largest.
abbrev pub IsScaled : ℕ → ℕ × ℕ → Type 0
IsScaled max_count b = (b.0 ≤ 50) × (b.1 ≡ max_count → b.0 ≡ 50)

pub record IsDrawing (total : ℕ) (plot : List (ℕ × ℕ)) : Type 0 where
  pub shape : length plot ≡ buckets
  pub counted : sum (counts plot) ≡ total
  pub scaled : All (IsScaled (max_element (counts plot))) plot

-- The time lies between two others.
abbrev pub Between : (F : Double) → F.Num → F.Num → F.Num → Type 0
Between F low high t = (F.lt t low ≡ false) × (F.lt high t ≡ false)

module _ (F : Double) (law : IsInterpolating F) (low high : F.Num)
    (apart : F.lt (F.of_nat 0) (F.sub high low) ≡ true) where
  -- A time in the range has a bucket.
  bucket_found :
      (t : F.Num)
      → Between F low high t
      → (i : ℕ) × (bucket_of F low (F.sub high low) t ≡ some i) × (i < buckets)
  unfolding bucket_of cast_bucket
  bucket_found t (above, below) =
      let (d0, d1) = law.sub-bounds low t high above below in
      let (q0, q1) = law.div-bounds (F.sub t low) (F.sub high low) d0 d1 apart in
      let (x0, x1) = law.mul-bounds (F.div (F.sub t low) (F.sub high low)) 19 (omega arith) q0 q1 in
      let whole = F.trunc (F.mul (F.div (F.sub t low) (F.sub high low)) (F.of_nat 19)) in
      let no_overflow : ltb whole int_limit ≡ true = ground (arith, x1) in
      let no_clamp : leb buckets whole ≡ false = ground (arith, x1) in
      (
        whole,
        rw
            (
              law.add-pos (F.mul (F.div (F.sub t low) (F.sub high low)) (F.of_nat 19)) x0,
              x0,
              no_overflow,
              no_clamp,
            )
            refl,
        omega (arith, x1),
      )

  fill_total :
      (ts : List F.Num) (h : List ℕ)
      → All (Between F low high) ts
      → length h ≡ buckets
      → (h' : List ℕ) × (fill_histogram F low (F.sub high low) ts h ≡ some h')
        × (length h' ≡ buckets)
        × (sum h' ≡ length ts + sum h)
  unfolding fill_histogram
  fill_total [] h b e = (h, refl, e, omega arith)
  fill_total (t ∷ ts) h (b, bs) e =
      let (i, found, small) = bucket_found t b in
      let (g, modified, grown, long) = sum-modify? h i (omega (arith, small)) in
      let (h', filled, l, s) = fill_total ts g bs (omega arith) in
      (h', rw (found, modified, filled), l, omega arith)

bar_total :
    (m c : ℕ)
    → 0 < m
    → c ≤ m
    → m * 50 < int_limit
    → (b : ℕ) × (bar_length m c ≡ some b) × IsScaled m (b, c)
unfolding bar_length
bar_total m c h k l = (c * 50 / m, ground arith, (omega (arith, small), λ e. omega (arith, full e)))
  where
    small : c * 50 / m < 51
    small = (div-lt_iff_lt-mul {k = m} h).1 (omega arith)

    full : c ≡ m → c * 50 / m ≡ 50
    full e = div-eq_of_eq-mul_left h (omega arith)

draw_total :
    (m : ℕ) (cs : List ℕ)
    → 0 < m
    → m * 50 < int_limit
    → All (λ c. c ≤ m) cs
    → (plot : List (ℕ × ℕ)) × (draw m cs ≡ some plot) × (counts plot ≡ cs) × All (IsScaled m) plot
unfolding draw
draw_total m [] h l k = ([], refl, refl, tt)
draw_total m (c ∷ cs) h l k =
    let (b, drawn, scaled) = bar_total m c h k.0 l in
    let (plot, rest, same, all) = draw_total m cs h l k.1 in
    ((b, c) ∷ plot, rw (drawn, rest), ap (◌∷◌ c) same, (scaled, all))

drawing :
    {total : ℕ} {hist : List ℕ} (plot : List (ℕ × ℕ))
    → sum hist ≡ total
    → counts plot ≡ hist
    → length hist ≡ buckets
    → All (IsScaled (max_element hist)) plot
    → IsDrawing total plot
drawing plot s same l all = record {
  shape = sym (length-map (λ b. b.1) plot) ∙ ap length same ∙ l;
  counted = rw same s;
  scaled = rw same all;
}

-- Times that lie between the minimum and the maximum, these apart, are drawn.
draws :
    (F : Double)
    → IsInterpolating F
    → (s : ContextSwitchStats F) → 10 ≤ length s.times
    → length s.times * 50 < int_limit
    → All (Between F s.min_time s.max_time) s.times
    → F.lt (F.of_nat 0) (F.sub s.max_time s.min_time) ≡ true
    → is_zero F (F.sub s.max_time s.min_time) ≡ false
    → (plot : List (ℕ × ℕ)) × (print_histogram F s ≡ some (bars plot))
      × IsDrawing (length s.times) plot
unfolding print_histogram
draws F law s h l between apart not_zero =
    let (hist, filled, long, total) =
      fill_total F law s.min_time s.max_time apart s.times (replicate buckets 0) between refl in
    let filled_up : 0 < max_element hist = ground (arith, max_element-eq-zero hist) in
    let (plot, drawn, same, all) =
      draw_total (max_element hist) hist filled_up (omega (arith, max_element-le-sum hist))
        (max_element-All hist) in
    let enough : ltb (length s.times) 10 ≡ false = ground arith in
    let counted : (max_element hist == 0) ≡ false = ground arith in
    (plot, rw (enough, not_zero, filled, counted, drawn), drawing plot (omega arith) same long all)

-- A range from 0 on that is not 0 is above 0.
zero_or_above :
    (F : Double) (a : F.Num)
    → F.lt a (F.of_nat 0) ≡ false
    → is_zero F a ≡ false
    → F.lt (F.of_nat 0) a ≡ true
unfolding is_zero
zero_or_above F a h k = ground (arith, h, k)

prints_nothing :
    (F : Double) (s : ContextSwitchStats F)
    → is_zero F (F.sub s.max_time s.min_time) ≡ true
    → print_histogram F s ≡ some nothing
unfolding print_histogram
prints_nothing F s h = ground (arith, h)

-- What `print_histogram` does for the summary `r` of `total` times.
abbrev pub Outcome : (F : Double) → ℕ → ContextSwitchStats F → Type 0
Outcome F total r =
    ((is_zero F (F.sub r.max_time r.min_time) ≡ true) × (print_histogram F r ≡ some nothing))
    ⊎ ((plot : List (ℕ × ℕ)) × (print_histogram F r ≡ some (bars plot)) × IsDrawing total plot)

summary-Outcome :
    (F : Double)
    → IsInterpolating F
    → (s r : ContextSwitchStats F) → 10 ≤ length s.times
    → length s.times * 50 < int_limit
    → Summarises F s r
    → Outcome F (length s.times) r
summary-Outcome F law s r h l v =
    let same : length r.times ≡ length s.times = length-Perm r.times s.times v.same_times in
    let range = F.sub r.max_time r.min_time in
    elim (Bool-cases (is_zero F range)) [
      | inl e ↦ inl (e, prints_nothing F r e)
      | inr e ↦
          let not_below =
            (law.sub-bounds r.min_time r.max_time r.max_time v.high_end.above v.high_end.below).0 in
          inr (
            subst
              (λ n.
                (plot : List (ℕ × ℕ)) × (print_histogram F r ≡ some (bars plot)) × IsDrawing n plot)
              same
              (draws F law r (omega (arith, same)) (omega (arith, same)) v.ends
                (zero_or_above F range not_below e) e))
    ]

-- From ten times on, few enough that 50 times their number is an `int`, where `<` is a strict weak order,
-- a fraction of a size stays below it, and the part of a range that lies below a value of the range is
-- from 0 to 1: `calculate` succeeds, and `print_histogram` on its summary stays within bounds. It prints
-- nothing if the difference of maximum and minimum is 0, and else draws twenty bars: their counts add up
-- to the number of times, no bar is longer than 50, and the fullest bucket's bar is 50 long.
pub print_histogram-Outcome :
    (F : Double)
    → IsOrdered F
    → IsScaling F
    → IsInterpolating F
    → (s : ContextSwitchStats F) → 10 ≤ length s.times
    → length s.times * 50 < int_limit
    → (r : ContextSwitchStats F) × (calculate F s ≡ some r) × Outcome F (length s.times) r
print_histogram-Outcome F ordered scaling law s h l =
    let (r, calculated, v) = calculate-Summarises F ordered scaling s (omega arith) in
    (r, calculated, summary-Outcome F law s r h l v)
