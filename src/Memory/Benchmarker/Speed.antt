-- ===== src/Memory/Benchmarker/Speed.antt =====
-- src/memory_allocator_benchmarker.cpp, `speed_test`: the counters where no allocation fails.
pub mod Counters
pub mod Run
use context_switching.Prelude.{
  ℕ, zero, suc, ◌+◌, ◌-◌, ◌*◌, ◌/◌, ◌%◌, ◌^◌, ◌≤◌, ◌<◌, ◌≡◌, ◌≢◌, refl, ap, ◌∙◌, ◌⊎◌, inl, inr,
  List, [], ◌∷◌, ◌++◌, Option, none, some, Bool, true, false, ltb, leb, ◌==◌, ◌&&◌, if◌then◌else◌,
  ◌>>=◌, length, get_elem?, modify?, replicate, All, arith, modify?_total, get_elem?_total,
  length-append, Bool-cases, Option-cases,
}
use context_switching.Prelude.Words.{u64}
use context_switching.Prelude.Double.{Double}
use context_switching.Memory.Statistics.{Statistics, new_statistics, update_allocation, update_free}
use context_switching.Memory.Pattern.{AllocationPattern, random, exponential, Draw, generate}
use context_switching.Memory.Pattern.Bounds.{generate_bounds}
use context_switching.Memory.Benchmarker.{
  histogram_buckets, MemoryBenchmarker, Trial, Blocks, new_benchmarker, last_bucket, int_index,
  size_bucket, time_bucket, count_one, update_histogram, release, free_one, free_every_other,
  allocated, keep_block, speed_round, speed_loop, speed_test,
}

-- The blocks that are not released.
abbrev pub held : Blocks → ℕ
held [] = 0
held (none ∷ bs) = held bs
held (some n ∷ bs) = suc (held bs)

pub held-append : (bs cs : Blocks) → held (bs ++ cs) ≡ held bs + held cs
held-append [] cs = omega arith
held-append (none ∷ bs) cs = held-append bs cs
held-append (some n ∷ bs) cs = omega (arith, held-append bs cs)

pub held-modify? :
    (bs : Blocks) (i n : ℕ)
    → get_elem? bs i ≡ some (some n)
    → (cs : Blocks) × (modify? bs i (λ _. none) ≡ some cs)
      × (length cs ≡ length bs)
      × (held bs ≡ suc (held cs))
held-modify? [] i n e = cc
held-modify? (b ∷ bs) zero n e = (none ∷ bs, refl, refl, ground (arith, e))
held-modify? (none ∷ bs) (suc i) n e =
    let (cs, f, l, h) = held-modify? bs i n e in (none ∷ cs, rw f refl, ap suc l, h)
held-modify? (some m ∷ bs) (suc i) n e =
    let (cs, f, l, h) = held-modify? bs i n e in (some m ∷ cs, rw f refl, ap suc l, ap suc h)

size_bucket_lem :
    (size m : ℕ)
    → 0 < m
    → u64 (size * 50) / m < 2 ^ 31
    → size_bucket size m ≡ some (u64 (size * 50) / m)
size_bucket_lem size m p q = ground (arith, p, q)

-- The cast of the time to a bucket is defined.
abbrev pub InTime : (F : Double) → F.Num → Type 0
InTime F time = F.trunc (F.div (F.mul time (F.of_nat 1000000)) (F.of_nat 10)) < 2 ^ 31

time_bucket_lem :
    (F : Double) (time : F.Num)
    → InTime F time
    → time_bucket F time ≡ some (F.trunc (F.div (F.mul time (F.of_nat 1000000)) (F.of_nat 10)))
time_bucket_lem F time h = ground (arith, h)

last_bucket-bound : (i : ℕ) → last_bucket i < 50
last_bucket-bound i = ground arith

module _ {F : Double} where
  -- The numbers of the histograms' arrays.
  pub record Shaped (max_size : ℕ) (b : MemoryBenchmarker F) : Type 0 where
    pub sizes : length b.size_histogram ≡ 50
    pub times : length b.time_histogram ≡ 50
    pub largest : b.histogram_max_size ≡ max_size

  pub update_histogram_total :
      (size max_size : ℕ) (time : F.Num) (b : MemoryBenchmarker F)
      → 0 < max_size
      → u64 (size * 50) / max_size < 2 ^ 31
      → InTime F time
      → Shaped max_size b
      → (c : MemoryBenchmarker F) × (update_histogram F size time b ≡ some c)
        × Shaped max_size c
        × (c.global_stats ≡ b.global_stats)
  unfolding update_histogram
  update_histogram_total size max_size time b p q r s =
      let i = u64 (size * 50) / b.histogram_max_size in
      let j = F.trunc (F.div (F.mul time (F.of_nat 1000000)) (F.of_nat 10)) in
      let (xs, e, l) =
        modify?_total b.size_histogram (last_bucket i) (count_one F)
          (omega (arith, s.sizes, last_bucket-bound i)) in
      let (ys, f, k) =
        modify?_total b.time_histogram (last_bucket j) (count_one F)
          (omega (arith, s.times, last_bucket-bound j)) in
      (
        record b { size_histogram = xs; time_histogram = ys },
        rw
            (
              size_bucket_lem size b.histogram_max_size (rw s.largest p) (rw s.largest q),
              e,
              time_bucket_lem F time r,
              f,
            )
            refl,
        record { sizes = l ∙ s.sizes; times = k ∙ s.times; largest = s.largest },
        refl,
      )
