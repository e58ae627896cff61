-- ===== src/Prelude/Words.antt =====
-- Unsigned machine integers, and loops that run a given number of rounds.
use context_switching.Prelude.{ℕ, zero, suc, ◌+◌, ◌%◌, ◌^◌, ◌<◌, ◌≡◌, arith}

-- `uint64_t` and `size_t`
abbrev pub u64 : ℕ → ℕ
u64 n = n % 2 ^ 64

-- `n` increments of a `uint64_t`
pub increments : ℕ → ℕ → ℕ
increments zero v = v
increments (suc n) v = increments n (u64 (v + 1))

pub increments_lem : (n v : ℕ) → v < 2 ^ 64 → increments n v ≡ u64 (v + n)
unfolding increments
increments_lem zero v h = omega arith
increments_lem (suc n) v h = omega (arith, increments_lem n (u64 (v + 1)) (omega arith))

module _ {ℓ} {S : Type ℓ} (round : S → S) where
  -- `while (!stop) round`, where the flag is found set after `n` rounds
  pub rounds : ℕ → S → S
  rounds zero s = s
  rounds (suc n) s = rounds n (round s)

  pub rounds_inv {κ} :
      (P : ℕ → S → Type κ)
      → ((i : ℕ) (s : S) → P i s → P (suc i) (round s))
      → (n i j : ℕ) (s : S) → i + n ≡ j
      → P i s
      → P j (rounds n s)
  unfolding rounds
  rounds_inv P keep zero i j s e h = let e' : i ≡ j = omega arith in rw (← e') h
  rounds_inv P keep (suc n) i j s e h =
      rounds_inv P keep n (suc i) j (round s) (omega arith) (keep i s h)
