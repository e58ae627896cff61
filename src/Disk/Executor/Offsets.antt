-- ===== src/Disk/Executor/Offsets.antt =====
-- src/disk_io_analyzer_cpp.cpp, `execute`: where in the file the calls go.
use native.Mathlib.Decide.{dec_lt}
use native.Mathlib.Nat.{mod-eq_of_lt, mod_self, mul-mod_left, mul-le-mul_right}
use context_switching.Prelude.{
  ℕ, suc, ◌+◌, ◌*◌, ◌%◌, ◌^◌, ◌<◌, ◌≤◌, ◌≡◌, ap, ◌∙◌, List, [], ◌∷◌, All, All-map, subst⁻¹, arith,
}
use context_switching.Prelude.Words.{u64}
use context_switching.Prelude.Double.{Double}
use context_switching.Disk.Statistics.{
  IoPattern, sequential_read, sequential_write, random_read, random_write, mixed,
}
use context_switching.Disk.Executor.{Round, Loop, finish, call, sequential, random, round, execute}

-- One of so many blocks of the file.
abbrev pub Block : ℕ → ℕ → ℕ → Type 0
Block block_size blocks offset = (j : ℕ) × (j < blocks) × (offset ≡ j * block_size)

module _ (block_size blocks : ℕ) (some_blocks : 0 < blocks)
    (fits : blocks * block_size < 2 ^ 64) where
  drawn : (j : ℕ) → j < blocks → Block block_size blocks (u64 (j * block_size))
  drawn j h =
      let product : suc j * block_size ≤ blocks * block_size = mul-le-mul_right block_size h in
      (j, h, omega (arith, product, fits))

  -- Past the last block, the next one is the first.
  next-Block :
      (offset : ℕ)
      → 0 < block_size
      → Block block_size blocks offset
      → Block block_size blocks (u64 (offset + block_size) % (blocks * block_size))
  next-Block offset p (j, h, e) =
      let product : suc j * block_size ≤ blocks * block_size = mul-le-mul_right block_size h in
      let step : u64 (offset + block_size) ≡ suc j * block_size = omega (arith, e, product, fits) in
      elim (dec_lt (suc j) blocks) [
        | yes l ↦
            let more : suc (suc j) * block_size ≤ blocks * block_size =
              mul-le-mul_right block_size l in
            (
              suc j,
              l,
              ap (λ k. k % (blocks * block_size)) step ∙ mod-eq_of_lt (omega (arith, more, p)),
            )
        | no l ↦
            let last : suc j ≡ blocks = omega (arith, h, l) in
            let full : suc j * block_size ≡ blocks * block_size = ap (λ k. k * block_size) last in
            (
              0,
              some_blocks,
              ap (λ k. k % (blocks * block_size)) (step ∙ full)
                  ∙ mod_self (blocks * block_size)
                  ∙ omega arith,
            )
      ]

  module _ {F : Double} (positive : 0 < block_size) where
    finish-offset :
        (r : Round F) (l : Loop F) → (finish (blocks * block_size) block_size r l).offset ≡ l.offset
    unfolding finish
    finish-offset r l = ground arith

    -- One round: its call goes to a block of the file, and so does the next one.
    round-Block :
        (pattern : IoPattern) (r : Round F) (l : Loop F)
        → r.draw < blocks
        → Block block_size blocks l.offset
        → Block block_size blocks (round (blocks * block_size) block_size pattern r l).1.file_offset
          × Block block_size blocks (round (blocks * block_size) block_size pattern r l).0.offset
    unfolding round sequential random call
    round-Block sequential_read r l d b =
        (b, subst⁻¹ (Block block_size blocks) (finish-offset r _) (next-Block l.offset positive b))
    round-Block sequential_write r l d b =
        (b, subst⁻¹ (Block block_size blocks) (finish-offset r _) (next-Block l.offset positive b))
    round-Block random_read r l d b =
        (drawn r.draw d, subst⁻¹ (Block block_size blocks) (finish-offset r _) (drawn r.draw d))
    round-Block random_write r l d b =
        (drawn r.draw d, subst⁻¹ (Block block_size blocks) (finish-offset r _) (drawn r.draw d))
    round-Block mixed r l d b =
        (drawn r.draw d, subst⁻¹ (Block block_size blocks) (finish-offset r _) (drawn r.draw d))

    execute-Block :
        (pattern : IoPattern) (rs : List (Round F)) (l : Loop F)
        → All (λ r. r.draw < blocks) rs
        → Block block_size blocks l.offset
        → All
            (λ c. Block block_size blocks c.file_offset)
            (execute (blocks * block_size) block_size pattern rs l).1
    unfolding execute
    execute-Block pattern [] l d b = tt
    execute-Block pattern (r ∷ rs) l d b =
        let (here, later) = round-Block pattern r l d.0 b in
        (
          here,
          execute-Block pattern rs (round (blocks * block_size) block_size pattern r l).0 d.1 later,
        )

-- In a file of whole blocks, at least one, smaller than 2^64 bytes, where each draw is below their number,
-- every call of every pattern starts at a multiple of the block size and ends within the file.
pub execute_in_file :
    {F : Double} (block_size blocks : ℕ) (pattern : IoPattern) (rs : List (Round F)) (l : Loop F)
    → 0 < block_size
    → 0 < blocks
    → blocks * block_size < 2 ^ 64
    → All (λ r. r.draw < blocks) rs
    → l.offset ≡ 0
    → All
        (λ c. (c.file_offset % block_size ≡ 0) × (c.file_offset + block_size ≤ blocks * block_size))
        (execute (blocks * block_size) block_size pattern rs l).1
execute_in_file block_size blocks pattern rs l p q f d z =
    All-map
      (λ c b.
        let (j, h, e) = b in
        let product : suc j * block_size ≤ blocks * block_size = mul-le-mul_right block_size h in
        (ap (λ k. k % block_size) e ∙ mul-mod_left j block_size, omega (arith, e, product)))
      _ (execute-Block block_size blocks q f p pattern rs l d (0, q, omega (arith, z)))
