-- ===== src/Disk/Files/Chunks.antt =====
-- src/disk_io_analyzer_cpp.cpp, `create_test_file`: what it writes.
use Prim.Native.Nat.{min}
use native.Mathlib.Decide.{dec_lt}
use context_switching.Prelude.{
  ℕ, zero, suc, ◌-◌, ◌≤◌, ◌<◌, ◌≡◌, refl, Bool, true, false, List, [], ◌∷◌, some, All, sum,
  Bool-cases, inl, inr, arith, lt→ltb,
}
use context_switching.Disk.Files.{mb, write_chunks, create_test_file}

-- What is created holds all that was to be written; no write is empty or larger than a megabyte, and all
-- together they are not more.
record Wrote (succeeds : ℕ → Bool) (k remaining : ℕ) (created : Bool) (chunks : List ℕ)
    : Type 0 where
  complete : created ≡ true → sum chunks ≡ remaining
  bounded : sum chunks ≤ remaining
  pieces : All (λ c. (0 < c) × (c ≤ mb)) chunks
  created_if : ((i : ℕ) → k ≤ i → succeeds i ≡ true) → created ≡ true

write_chunks_lem :
    (fuel : ℕ) (succeeds : ℕ → Bool) (k remaining : ℕ)
    → remaining < fuel
    → (created : Bool) × (chunks : List ℕ) × (write_chunks fuel succeeds k remaining
        ≡ some (created, chunks))
      × Wrote succeeds k remaining created chunks
unfolding write_chunks
write_chunks_lem zero succeeds k remaining h = absurd (omega (arith, h))
write_chunks_lem (suc fuel) succeeds k remaining h = elim (dec_lt 0 remaining) [
  | yes p ↦
      let n = min remaining mb in
      elim (Bool-cases (succeeds k)) [
        | inl e ↦
            let (created, chunks, f, w) =
              write_chunks_lem fuel succeeds (suc k) (remaining - n) (omega (arith, h, p)) in
            (
              created,
              n ∷ chunks,
              rw (lt→ltb _ _ p, e, f) refl,
              record {
                complete = λ c. omega (arith, w.complete c);
                bounded = omega (arith, w.bounded);
                pieces = ((omega (arith, p), omega arith), w.pieces);
                created_if = λ all. w.created_if (λ i l. all i (omega (arith, l)));
              },
            )
        | inr e ↦ (
          false,
          n ∷ [],
          rw (lt→ltb _ _ p, e) refl,
          record {
            complete = λ c. absurd (ground (arith, c));
            bounded = omega arith;
            pieces = ((omega (arith, p), omega arith), tt);
            created_if = λ all. absurd (ground (arith, all k (omega arith), e));
          },
        )
      ]
  | no p ↦ (
    true,
    [],
    ground (arith, p),
    record {
      complete = λ c. omega (arith, p);
      bounded = omega arith;
      pieces = tt;
      created_if = λ all. refl;
    },
  )
]

-- `create_test_file` ends, whichever writes fail. The sizes that it writes are positive, a megabyte at
-- most, and together at most the size of the file; they are all of it if it returns true; and it returns
-- true if the file can be opened and every write succeeds.
pub create_test_file_lem :
    (opened : Bool) (succeeds : ℕ → Bool) (size : ℕ)
    → (created : Bool) × (chunks : List ℕ) × (create_test_file opened succeeds size
        ≡ some (created, chunks))
      × (created ≡ true → sum chunks ≡ size)
      × (sum chunks ≤ size)
      × All (λ c. (0 < c) × (c ≤ mb)) chunks
      × (opened ≡ true → ((i : ℕ) → succeeds i ≡ true) → created ≡ true)
unfolding create_test_file
create_test_file_lem false succeeds size =
    (false, [], refl, (λ c. absurd (ground (arith, c))), omega arith, tt, (λ o all. o))
create_test_file_lem true succeeds size =
    let (created, chunks, f, w) = write_chunks_lem (suc size) succeeds 0 size (omega arith) in
    (created, chunks, f, w.complete, w.bounded, w.pieces, λ o all. w.created_if (λ i l. all i))
