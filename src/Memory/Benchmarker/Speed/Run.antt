-- ===== src/Memory/Benchmarker/Speed/Run.antt =====
-- src/memory_allocator_benchmarker.cpp, `speed_test`: a whole run in which no allocation fails.
use native.Mathlib.Nat.{div-lt_iff_lt-mul, mul-le-mul_right}
use context_switching.Prelude.{
  ℕ, suc, ◌+◌, ◌*◌, ◌/◌, ◌^◌, ◌≤◌, ◌<◌, ◌≡◌, ◌≢◌, refl, ap, subst, ◌∙◌, List, [], ◌∷◌, some, length,
  All, arith,
}
use context_switching.Prelude.Words.{u64}
use context_switching.Prelude.Double.{Double}
use context_switching.Memory.Pattern.{AllocationPattern, exponential}
use context_switching.Memory.Pattern.Bounds.{generate_bounds, size_limit}
use context_switching.Memory.Benchmarker.{
  MemoryBenchmarker, Trial, Blocks, new_benchmarker, keep_block, speed_round, speed_loop,
  speed_test,
}
use context_switching.Memory.Benchmarker.Speed.{InTime}
use context_switching.Memory.Benchmarker.Speed.Counters.{Sound, keep_block-Sound}

-- The iteration allocates, in a time that fits its bucket.
abbrev pub Allocates : (F : Double) → Trial F → Type 0
Allocates F t = (time : F.Num) × (t.alloc_time ≡ some time) × InTime F time

shorter : (i n k : ℕ) → i + suc k ≡ n → suc i ≤ n
shorter i n k e = omega (arith, e)

module _ (F : Double) (exp_of_minus : F.Num → F.Num) where
  module _ (pattern : AllocationPattern) (min_size max_size : ℕ) (known : pattern ≢ exponential)
      (apart : min_size + 10 ≤ max_size) (bounded : max_size < 2 ^ 50) where
    size_fits : (size : ℕ) → size < size_limit pattern max_size → size ≤ max_size + 16384
    size_fits size h = ground (arith, h, pattern)

    bucket_fits : (size : ℕ) → size ≤ max_size + 16384 → u64 (size * 50) / max_size < 2 ^ 31
    bucket_fits size h = omega (
      arith,
      (div-lt_iff_lt-mul {k = max_size} {x = u64 (size * 50)} {y = 2 ^ 31} (omega (arith, apart))).1
          (omega (arith, h, apart, bounded)),
    )

    speed_round-Sound :
        (i : ℕ) (t : Trial F) (b : MemoryBenchmarker F) (blocks : Blocks)
        → i < 2 ^ 63
        → suc i * (max_size + 16384) < 2 ^ 64
        → Allocates F t
        → Sound max_size (max_size + 16384) i b blocks
        → (c : MemoryBenchmarker F) × (rest : Blocks) × (speed_round F exp_of_minus pattern min_size
              max_size i t b blocks
            ≡ some (c, rest))
          × Sound max_size (max_size + 16384) (suc i) c rest
    unfolding speed_round
    speed_round-Sound i t b blocks k h (time, e, r) s =
        let (size, f, low, up) =
          generate_bounds F exp_of_minus pattern min_size max_size i t.draw known apart
            (omega (arith, bounded)) in
        let l = size_fits size up in
        let (c, rest, g, sound) =
          keep_block-Sound F exp_of_minus max_size (max_size + 16384) i size t time b blocks
            (omega (arith, apart)) (bucket_fits size l) r k l h s in
        (c, rest, rw f (ap (λ a. keep_block F exp_of_minus i size t a b blocks) e ∙ g), sound)

    speed_loop-Sound :
        (ts : List (Trial F)) (i n : ℕ) (b : MemoryBenchmarker F) (blocks : Blocks)
        → i + length ts ≡ n
        → n < 2 ^ 63
        → n * (max_size + 16384) < 2 ^ 64
        → All (Allocates F) ts
        → Sound max_size (max_size + 16384) i b blocks
        → (c : MemoryBenchmarker F) × (rest : Blocks) × (speed_loop F exp_of_minus pattern min_size
              max_size i ts b blocks
            ≡ some (c, rest))
          × Sound max_size (max_size + 16384) n c rest
    unfolding speed_loop
    speed_loop-Sound [] i n b blocks e k h all s = (
      b,
      blocks,
      refl,
      subst (λ j. Sound max_size (max_size + 16384) j b blocks) (omega (arith, e)) s,
    )
    speed_loop-Sound (t ∷ ts) i n b blocks e k h all s =
        let (c, rest, f, sound) =
          speed_round-Sound i t b blocks (omega (arith, e, k))
            (omega (arith, h, mul-le-mul_right (max_size + 16384) (shorter i n (length ts) e)))
            all.0 s in
        let (d, last, g, done) =
          speed_loop-Sound ts (suc i) n c rest (omega (arith, e)) k h all.1 sound in
        (d, last, rw f g, done)

-- Where the sizes are at least ten apart and below 2^50, the pattern is not the exponential one, the
-- sizes of all iterations cannot wrap round together, no allocation fails and every time fits its
-- bucket, speed_test reads and writes nothing out of bounds and divides by nothing that is 0; at the
-- end the allocations counted are the iterations, the blocks still held and the releases counted are
-- together the iterations, no failure is counted, and the current size is at most the peak, the peak
-- at most the total.
pub speed_test-Sound :
    (F : Double) (exp_of_minus : F.Num → F.Num) (largest : F.Num) (pattern : AllocationPattern)
    (min_size max_size : ℕ) (trials : List (Trial F))
    → pattern ≢ exponential
    → min_size + 10 ≤ max_size
    → max_size < 2 ^ 50
    → length trials * (max_size + 16384) < 2 ^ 64
    → All (Allocates F) trials
    → (b : MemoryBenchmarker F) × (blocks : Blocks) × (speed_test F exp_of_minus pattern min_size
          max_size trials
          (new_benchmarker F largest max_size)
        ≡ some (b, blocks))
      × Sound max_size (max_size + 16384) (length trials) b blocks
unfolding speed_test
speed_test-Sound F exp_of_minus largest pattern min_size max_size trials known apart bounded h all =
    speed_loop-Sound F exp_of_minus pattern min_size max_size known apart bounded trials 0
      (length trials) (new_benchmarker F largest max_size) [] (omega arith)
      (omega (arith, h, apart)) h all
      (record {
        shape = record { sizes = refl; times = refl; largest = refl };
        blocks_length = refl;
        allocations = refl;
        frees = (0, refl, refl);
        failures = refl;
        current_peak = omega arith;
        peak_total = omega arith;
        total_bound = omega arith;
      })
