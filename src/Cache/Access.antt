-- ===== src/Cache/Access.antt =====
-- src/cache_analyzer_cpp.cpp: `AccessPatternGenerator::execute_pattern`, the number of its accesses.
pub mod Counts
use context_switching.Prelude.{
  ℕ, zero, suc, ◌+◌, ◌-◌, ◌*◌, ◌/◌, ◌%◌, Bool, true, false, List, Option, none, some, ltb, ◌==◌,
  if◌then◌else◌, ◌>>=◌, length, get_elem?,
}
use context_switching.Prelude.Words.{u64}

abbrev continue : Bool → Option ℕ → Option ℕ → Option ℕ
continue true more accesses = more
continue false more accesses = accesses

module _ {A : Type 0} where
  -- One access: `none` is one out of bounds.
  abbrev pub access : List A → ℕ → ℕ → Option ℕ
  access items i accesses = do item ← get_elem? items i; some (u64 (accesses + 1))

  -- `for (; i < items.size(); i += stride)`; `none` is fuel run out, too.
  unfoldable pub strided : ℕ → List A → ℕ → ℕ → ℕ → Option ℕ
  strided zero items stride i accesses = none
  strided (suc fuel) items stride i accesses =
      continue (ltb i (length items))
        (access items i accesses >>= strided fuel items stride (u64 (i + stride))) (some accesses)

  -- The loop over the iterations, for the sequential and the stride pattern.
  unfoldable pub execute_strided : ℕ → List A → ℕ → ℕ → Option ℕ
  execute_strided zero items stride accesses = some accesses
  execute_strided (suc iterations) items stride accesses = do
    after ← strided (suc (length items)) items stride 0 accesses
    execute_strided iterations items stride after

  -- `indices` are what `dis(gen)` gives in turn, each below the size.
  unfoldable pub random_accesses : ℕ → List A → (ℕ → ℕ) → ℕ → Option ℕ
  random_accesses zero items indices accesses = some accesses
  random_accesses (suc n) items indices accesses = do
    after ← access items (indices n) accesses
    random_accesses n items indices after

  unfoldable pub execute_random : ℕ → List A → ℕ → (ℕ → ℕ → ℕ) → ℕ → Option ℕ
  execute_random zero items stride indices accesses = some accesses
  execute_random (suc iterations) items stride indices accesses = do
    after ← random_accesses (length items / stride) items (indices iterations) accesses
    execute_random iterations items stride indices after
