-- ===== src/Memory/Benchmarker/Speed/Counters.antt =====
-- src/memory_allocator_benchmarker.cpp, `speed_test`: what the counters say where no allocation fails.
use context_switching.Prelude.{
  ℕ, suc, ◌+◌, ◌-◌, ◌*◌, ◌/◌, ◌%◌, ◌^◌, ◌≤◌, ◌<◌, ◌≡◌, refl, ◌∙◌, inl, inr, [], ◌∷◌, ◌++◌, Option,
  none, some, ltb, ◌==◌, ◌&&◌, length, get_elem?, arith, get_elem?_total, length-append, Bool-cases,
}
use context_switching.Prelude.Words.{u64}
use context_switching.Prelude.Double.{Double}
use context_switching.Memory.Statistics.{update_allocation, update_free}
use context_switching.Memory.Pattern.Bounds.{random_index}
use context_switching.Memory.Benchmarker.{
  MemoryBenchmarker, Trial, Blocks, release, free_one, free_every_other, allocated, keep_block,
}
use context_switching.Memory.Benchmarker.Speed.{
  held, held-append, held-modify?, Shaped, InTime, update_histogram_total,
}

-- After `i` iterations without a failure, with `most` above every size.
pub record Sound {F : Double} (max_size most i : ℕ) (b : MemoryBenchmarker F) (blocks : Blocks)
    : Type 0 where
  pub shape : Shaped max_size b
  pub blocks_length : length blocks ≡ i
  pub allocations : b.global_stats.allocation_count ≡ u64 i
  pub frees : (f : ℕ) × (held blocks + f ≡ i) × (b.global_stats.free_count ≡ u64 f)
  pub failures : b.global_stats.failed_allocations ≡ 0
  pub current_peak : b.global_stats.current_allocated ≤ b.global_stats.peak_allocated
  pub peak_total : b.global_stats.peak_allocated ≤ b.global_stats.total_allocated
  pub total_bound : b.global_stats.total_allocated ≤ i * most

module _ (F : Double) (exp_of_minus : F.Num → F.Num) where
  index_bound : (r n i : ℕ) → n ≡ suc i → 0 < i → r % (n - 1) < n
  index_bound r n i e h = ground (arith, e, h)

  -- What a release keeps, at a place with a block or without.
  release-Sound :
      (idx size : ℕ) {max_size most i : ℕ} (time : F.Num) (b : MemoryBenchmarker F)
      (blocks : Blocks) (block : Option ℕ)
      → get_elem? blocks idx ≡ some block
      → size < 2 ^ 64
      → size ≤ b.global_stats.current_allocated
      → b.global_stats.total_allocated < 2 ^ 64
      → Sound max_size most i b blocks
      → (c : MemoryBenchmarker F) × (rest : Blocks) × (release F idx size time b blocks block
          ≡ some (c, rest))
        × Sound max_size most i c rest
  unfolding update_free
  release-Sound idx size time b blocks none e q l w s = (b, blocks, refl, s)
  release-Sound idx size time b blocks (some n) e q l w s =
      let (rest, f, k, h) = held-modify? blocks idx n e in
      (
        record b { global_stats = update_free F size time b.global_stats },
        rest,
        rw f refl,
        record {
          shape = record {
            sizes = s.shape.sizes;
            times = s.shape.times;
            largest = s.shape.largest;
          };
          blocks_length = k ∙ s.blocks_length;
          allocations = s.allocations;
          frees = (suc s.frees.0, omega (arith, h, s.frees.1), omega (arith, s.frees.2));
          failures = s.failures;
          current_peak = omega (arith, s.current_peak, s.peak_total);
          peak_total = s.peak_total;
          total_bound = s.total_bound;
        },
      )

  free_one-Sound :
      (max_size most i size : ℕ) (t : Trial F) (b : MemoryBenchmarker F) (blocks : Blocks)
      → 0 < i
      → i < 2 ^ 63
      → size < 2 ^ 64
      → size ≤ b.global_stats.current_allocated
      → b.global_stats.total_allocated < 2 ^ 64
      → Sound max_size most (suc i) b blocks
      → (c : MemoryBenchmarker F) × (rest : Blocks) × (free_one F exp_of_minus i size t b blocks
          ≡ some (c, rest))
        × Sound max_size most (suc i) c rest
  unfolding free_one
  free_one-Sound max_size most i size t b blocks p q r l w s =
      let idx = t.free_draw.first % (length blocks - 1) in
      let drawn =
        random_index F exp_of_minus (length blocks - 1) i t.free_draw
          (omega (arith, s.blocks_length)) (omega (arith, s.blocks_length)) in
      let (block, found) = get_elem?_total blocks idx (index_bound _ _ i s.blocks_length p) in
      let (c, rest, e, sound) = release-Sound idx size t.free_time b blocks block found r l w s in
      (c, rest, rw (drawn, found) e, sound)

  -- A successful allocation, before anything is released.
  allocated-Sound :
      {max_size most i : ℕ} (size : ℕ) (time : F.Num) (b c : MemoryBenchmarker F) (blocks : Blocks)
      → Sound max_size most i b blocks
      → size ≤ most
      → suc i * most < 2 ^ 64
      → Shaped max_size c
      → c.global_stats ≡ (allocated F exp_of_minus size time b).global_stats
      → Sound max_size most (suc i) c (blocks ++ some size ∷ [])
        × (size ≤ c.global_stats.current_allocated)
        × (c.global_stats.total_allocated < 2 ^ 64)
  unfolding update_allocation
  allocated-Sound {max_size} {most} {i} size time b c blocks s l h shaped e =
      let fits : b.global_stats.total_allocated + size < 2 ^ 64 =
        omega (arith, s.total_bound, l, h) in
      (
        record {
          shape = shaped;
          blocks_length = omega (arith, length-append blocks (some size ∷ []), s.blocks_length);
          allocations = rw e (omega (arith, s.allocations));
          frees = (
            s.frees.0,
            omega (arith, held-append blocks (some size ∷ []), s.frees.1),
            rw e s.frees.2,
          );
          failures = rw e s.failures;
          current_peak = rw e (ground (arith, fits, s.current_peak, s.peak_total));
          peak_total = rw e (ground (arith, fits, s.current_peak, s.peak_total));
          total_bound = rw e (omega (arith, fits, s.total_bound, l));
        },
        rw e (ground (arith, fits, s.current_peak, s.peak_total)),
        rw e (omega (arith, fits)),
      )

  free_every_other-Sound :
      (max_size most i size : ℕ) (t : Trial F) (b : MemoryBenchmarker F) (blocks : Blocks)
      → i < 2 ^ 63
      → size < 2 ^ 64
      → size ≤ b.global_stats.current_allocated
      → b.global_stats.total_allocated < 2 ^ 64
      → Sound max_size most (suc i) b blocks
      → (c : MemoryBenchmarker F) × (rest : Blocks) × (free_every_other F exp_of_minus i size t b
            blocks
          ≡ some (c, rest))
        × Sound max_size most (suc i) c rest
  free_every_other-Sound max_size most i size t b blocks q r l w s =
      elim (Bool-cases ((i % 2 == 0) && ltb 0 i)) [
        | inl e ↦
            let (c, rest, f, k) =
              free_one-Sound max_size most i size t b blocks (ground (arith, e)) q r l w s in
            (c, rest, rw e f, k)
        | inr e ↦ (b, blocks, rw e refl, s)
      ]

  pub keep_block-Sound :
      (max_size most i size : ℕ) (t : Trial F) (time : F.Num) (b : MemoryBenchmarker F)
      (blocks : Blocks)
      → 0 < max_size
      → u64 (size * 50) / max_size < 2 ^ 31
      → InTime F time
      → i < 2 ^ 63
      → size ≤ most
      → suc i * most < 2 ^ 64
      → Sound max_size most i b blocks
      → (c : MemoryBenchmarker F) × (rest : Blocks) × (keep_block F exp_of_minus i size t
            (some time)
            b
            blocks
          ≡ some (c, rest))
        × Sound max_size most (suc i) c rest
  unfolding keep_block
  keep_block-Sound max_size most i size t time b blocks m q r k l h s =
      let (c, e, shaped, stats) =
        update_histogram_total size max_size time (allocated F exp_of_minus size time b) m q r
          (record { sizes = s.shape.sizes; times = s.shape.times; largest = s.shape.largest }) in
      let (sound, up, fits) = allocated-Sound size time b c blocks s l h shaped stats in
      let (d, rest, f, kept) =
        free_every_other-Sound max_size most i size t c (blocks ++ some size ∷ []) k
          (omega (arith, up, fits, sound.current_peak, sound.peak_total)) up fits sound in
      (d, rest, rw e f, kept)
