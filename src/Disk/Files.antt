-- ===== src/Disk/Files.antt =====
-- src/disk_io_analyzer_cpp.cpp: `FileManager::create_test_file`, `get_open_flags` and `format_size`.
pub mod Chunks
use Prim.Native.Nat.{min}
use context_switching.Prelude.{
  ℕ, zero, suc, ◌-◌, ◌*◌, ◌/◌, ◌≤◌, Bool, true, false, List, [], ◌∷◌, Option, none, some, ltb, leb,
  if◌then◌else◌, ◌>>=◌,
}
use context_switching.Disk.Statistics.{
  IoPattern, sequential_read, sequential_write, random_read, random_write, mixed, IoMode, buffered,
  direct, synchronous,
}

abbrev pub kb : ℕ
kb = 1024

abbrev pub mb : ℕ
mb = 1024 * 1024

abbrev pub gb : ℕ
gb = 1024 * 1024 * 1024

abbrev after_chunk : ℕ → Option (Bool × List ℕ) → Option (Bool × List ℕ)
after_chunk n rest = do (created, chunks) ← rest; some (created, n ∷ chunks)

-- The loop, where `succeeds k` tells whether the k-th write succeeds: the result, and the sizes of the
-- writes. `none` is fuel run out.
unfoldable pub write_chunks : ℕ → (ℕ → Bool) → ℕ → ℕ → Option (Bool × List ℕ)
write_chunks zero succeeds k remaining = none
write_chunks (suc fuel) succeeds k remaining =
    let write_size = min remaining mb in
    let rest = write_chunks fuel succeeds (suc k) (remaining - write_size) in
    if ltb 0 remaining
    then if succeeds k then after_chunk write_size rest else some (false, write_size ∷ [])
    else some (true, [])

unfoldable pub create_test_file : Bool → (ℕ → Bool) → ℕ → Option (Bool × List ℕ)
create_test_file false succeeds size = some (false, [])
create_test_file true succeeds size = write_chunks (suc size) succeeds 0 size

pub data Flag : Type 0 where
  read_only read_write direct_io synchronized : Flag

-- The flags for `open`, on a system with O_DIRECT.
pub get_open_flags : IoPattern → IoMode → List Flag
get_open_flags pattern mode = base_flags pattern ∷ mode_flags mode
  where
    base_flags : IoPattern → Flag
    base_flags sequential_read = read_only
    base_flags random_read = read_only
    base_flags _ = read_write

    mode_flags : IoMode → List Flag
    mode_flags buffered = []
    mode_flags direct = direct_io ∷ []
    mode_flags synchronous = synchronized ∷ []

pub data SizeUnit : Type 0 where
  gigabytes megabytes kilobytes bytes : SizeUnit

-- A number and its unit.
pub format_size : ℕ → ℕ × SizeUnit
format_size size =
    if leb gb size
    then (size / gb, gigabytes)
    else if leb mb size
    then (size / mb, megabytes)
    else if leb kb size
    then (size / kb, kilobytes)
    else (size, bytes)
