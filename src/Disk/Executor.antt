-- ===== src/Disk/Executor.antt =====
-- src/disk_io_analyzer_cpp.cpp: `IOPatternExecutor<Pattern>::execute`.
pub mod Offsets
pub mod Totals
use context_switching.Prelude.{
  ℕ, ◌+◌, ◌*◌, ◌%◌, Bool, true, false, List, [], ◌∷◌, ltb, ◌==◌, if◌then◌else◌,
}
use context_switching.Prelude.Int.{ℤ, pos_part}
use context_switching.Prelude.Words.{u64}
use context_switching.Prelude.Double.{Double}
use context_switching.Disk.Statistics.{
  IoPattern, sequential_read, sequential_write, random_read, random_write, mixed, IoStatistics,
  count_transfer, add_latency,
}

-- What one round takes from its surroundings: the draw of a block, the result of the system call, and
-- the time it took.
pub record Round (F : Double) : Type 0 where
  pub draw : ℕ
  pub result : ℤ
  pub latency : F.Num

-- A system call: a `pwrite`, or else a `pread`, of a block at this offset. A block that is written
-- starts with the byte `first`, and each further byte is one larger.
pub record Call : Type 0 where
  pub is_write : Bool
  pub file_offset : ℕ
  pub first : ℕ

pub record Loop (F : Double) : Type 0 where
  pub offset : ℕ
  pub operations : ℕ
  pub bytes_transferred : ℕ
  pub stats : IoStatistics F

module _ {F : Double} (file_size block_size : ℕ) where
  -- The end of a round.
  unfoldable pub finish : Round F → Loop F → Loop F
  unfolding add_latency
  finish r l =
      if ltb 0 (pos_part r.result)
      then record l {
        stats = add_latency F r.latency l.stats;
        bytes_transferred = u64 (l.bytes_transferred + pos_part r.result);
        operations = u64 (l.operations + 1);
      }
      else l

  unfoldable pub call : Bool → ℕ → Loop F → Call
  call write offset l = record {
    is_write = write;
    file_offset = offset;
    first = l.operations % 256;
  }

  -- At the offset where the last round ended.
  unfoldable pub sequential : Bool → Round F → Loop F → Loop F × Call
  unfolding finish call
  sequential write r l = (
    finish r (record l {
      stats = count_transfer F write r.result l.stats;
      offset = u64 (l.offset + block_size) % file_size;
    }),
    call write l.offset l,
  )

  -- At a block that is drawn.
  unfoldable pub random : Bool → Round F → Loop F → Loop F × Call
  unfolding finish call
  random write r l =
      let offset = u64 (r.draw * block_size) in
      (
        finish r (record l { stats = count_transfer F write r.result l.stats; offset = offset }),
        call write offset l,
      )

  unfoldable pub round : IoPattern → Round F → Loop F → Loop F × Call
  unfolding sequential random
  round sequential_read = sequential false
  round sequential_write = sequential true
  round random_read = random false
  round random_write = random true
  round mixed = λ r l. random (l.operations % 3 == 0) r l

  -- The rounds until the stop flag is found set, and the calls that they make.
  unfoldable pub execute : IoPattern → List (Round F) → Loop F → Loop F × List Call
  unfolding round
  execute pattern [] l = (l, [])
  execute pattern (r ∷ rs) l =
      let (after, made) = round pattern r l in
      let (final, calls) = execute pattern rs after in (final, made ∷ calls)

-- Where `execute` starts.
abbrev pub start_with : {F : Double} → IoStatistics F → Loop F
start_with s = record { offset = 0; operations = 0; bytes_transferred = 0; stats = s }
