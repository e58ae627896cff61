-- ===== src/Disk/Executor/Totals.antt =====
-- src/disk_io_analyzer_cpp.cpp, `execute`: what the counters say after any number of rounds.
use context_switching.Prelude.{
  ℕ, ◌+◌, ◌-◌, ◌/◌, ◌%◌, ◌^◌, ◌<◌, ◌≡◌, ◌≢◌, refl, Bool, true, false, List, [], ◌∷◌, ltb, ◌==◌,
  Bool-cases, inl, inr, arith, length, length-append,
}
use context_switching.Prelude.Int.{pos_part}
use context_switching.Prelude.Words.{u64}
use context_switching.Prelude.Double.{Double}
use context_switching.Disk.Statistics.{
  IoPattern, sequential_read, sequential_write, random_read, random_write, mixed, count_transfer,
  add_latency, no_statistics,
}
use context_switching.Disk.Executor.{
  Round, Loop, finish, call, sequential, random, round, execute, start_with,
}

-- The counters of the statistics against those of the loop.
pub record Counted {F : Double} (l : Loop F) : Type 0 where
  pub bytes : u64 (l.stats.bytes_read + l.stats.bytes_written) ≡ l.bytes_transferred
  pub calls : u64 (l.stats.read_operations + l.stats.write_operations) ≡ l.operations
  pub samples : u64 (length l.stats.latency_samples) ≡ l.operations

-- Whether a pattern writes in the round after so many operations.
abbrev pub writes : IoPattern → ℕ → Bool
writes sequential_read n = false
writes sequential_write n = true
writes random_read n = false
writes random_write n = true
writes mixed n = n % 3 == 0

module _ {F : Double} (file_size block_size : ℕ) where
  abbrev transferred : Bool → ℕ → Round F → Loop F → Loop F
  transferred write offset r l =
      finish file_size block_size r
        (record l { stats = count_transfer F write r.result l.stats; offset = offset })

  transfer-Counted :
      (write : Bool) (offset : ℕ) (r : Round F) (l : Loop F)
      → Counted l
      → Counted (transferred write offset r l)
  unfolding finish add_latency count_transfer
  transfer-Counted true offset r l c = elim (Bool-cases (ltb 0 (pos_part r.result))) [
    | inl e ↦ rw e (record {
      bytes = omega (arith, c.bytes);
      calls = omega (arith, c.calls);
      samples = omega (arith, c.samples, length-append l.stats.latency_samples (r.latency ∷ []));
    })
    | inr e ↦ rw e (record { bytes = c.bytes; calls = c.calls; samples = c.samples })
  ]
  transfer-Counted false offset r l c = elim (Bool-cases (ltb 0 (pos_part r.result))) [
    | inl e ↦ rw e (record {
      bytes = omega (arith, c.bytes);
      calls = omega (arith, c.calls);
      samples = omega (arith, c.samples, length-append l.stats.latency_samples (r.latency ∷ []));
    })
    | inr e ↦ rw e (record { bytes = c.bytes; calls = c.calls; samples = c.samples })
  ]

  round_lem :
      (pattern : IoPattern) (r : Round F) (l : Loop F)
      → (offset : ℕ) × ((round file_size block_size pattern r l).0
          ≡ transferred (writes pattern l.operations) offset r l)
        × ((round file_size block_size pattern r l).1.is_write ≡ writes pattern l.operations)
  unfolding round sequential random call
  round_lem sequential_read r l = (_, refl, refl)
  round_lem sequential_write r l = (_, refl, refl)
  round_lem random_read r l = (_, refl, refl)
  round_lem random_write r l = (_, refl, refl)
  round_lem mixed r l = (_, refl, refl)

  -- What each round keeps, the loop keeps.
  execute-keeps :
      (P : Loop F → Type 0) (pattern : IoPattern)
      → ((r : Round F) (l : Loop F) (offset : ℕ)
          → P l
          → P (transferred (writes pattern l.operations) offset r l))
      → (rs : List (Round F)) (l : Loop F) → P l
      → P (execute file_size block_size pattern rs l).0
  unfolding execute
  execute-keeps P pattern keep [] l p = p
  execute-keeps P pattern keep (r ∷ rs) l p =
      let (offset, e, w) = round_lem pattern r l in
      execute-keeps P pattern keep rs (round file_size block_size pattern r l).0
        (rw e (keep r l offset p))

  -- The shares of writes and reads after n operations.
  abbrev Shared : Loop F → Type 0
  Shared l =
      let n = length l.stats.latency_samples in
      n < 2 ^ 64
      → (l.operations ≡ n)
        × (l.stats.write_operations ≡ (n + 2) / 3)
        × (l.stats.read_operations ≡ n - (n + 2) / 3)

  transfer-Shared :
      (r : Round F) (l : Loop F) (offset : ℕ)
      → Shared l
      → Shared (transferred (writes mixed l.operations) offset r l)
  unfolding finish add_latency count_transfer
  transfer-Shared r l offset p = elim (Bool-cases (ltb 0 (pos_part r.result))) [
    | inl e ↦ elim (Bool-cases (l.operations % 3 == 0)) [
      | inl w ↦
          rw (e, w)
            (λ h.
              let more = length-append l.stats.latency_samples (r.latency ∷ []) in
              let (o, x, y) = p (omega (arith, h, more)) in
              let third : l.operations % 3 ≡ 0 = ground (arith, w) in
              (
                omega (arith, o, more, h),
                omega (arith, o, x, more, h, third),
                omega (arith, o, y, more, h, third),
              ))
      | inr w ↦
          rw (e, w)
            (λ h.
              let more = length-append l.stats.latency_samples (r.latency ∷ []) in
              let (o, x, y) = p (omega (arith, h, more)) in
              let other : l.operations % 3 ≢ 0 = ground (arith, w) in
              (
                omega (arith, o, more, h),
                omega (arith, o, x, more, h, other),
                omega (arith, o, y, more, h, other),
              ))
    ]
    | inr e ↦ rw e p
  ]

-- Whatever the pattern and whatever the calls return, the bytes read and written are together, modulo
-- 2^64, the bytes that `execute` returns, and the reads and writes together its operations, of each of
-- which there is one latency sample.
execute-Counted :
    {F : Double} (file_size block_size : ℕ) (pattern : IoPattern) (rs : List (Round F))
    → Counted (execute file_size block_size pattern rs (start_with (no_statistics F))).0
execute-Counted {F} file_size block_size pattern rs =
    execute-keeps file_size block_size Counted pattern
      (λ r l offset c.
        transfer-Counted file_size block_size (writes pattern l.operations) offset r l c)
      rs (start_with (no_statistics F)) (record { bytes = refl; calls = refl; samples = refl })

-- A mixed run with fewer than 2^64 calls that transfer something, n of them, makes a third of them
-- writes, rounded up, and the rest reads, whichever calls fail in between.
pub mixed_shares :
    {F : Double} (file_size block_size : ℕ) (rs : List (Round F))
    → let s = (execute file_size block_size mixed rs (start_with (no_statistics F))).0.stats in
      let n = length s.latency_samples in
      n < 2 ^ 64 → (s.write_operations ≡ (n + 2) / 3) × (s.read_operations ≡ n - (n + 2) / 3)
mixed_shares {F} file_size block_size rs h =
    let (o, x, y) =
      execute-keeps file_size block_size (Shared file_size block_size) mixed
        (transfer-Shared file_size block_size) rs (start_with (no_statistics F))
        (λ z. (refl, refl, refl)) h in
    (x, y)
