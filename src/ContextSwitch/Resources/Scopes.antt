-- ===== src/ContextSwitch/Resources/Scopes.antt =====
-- src/context_switch_cpp.cpp, `PipeRAII`, `SharedMemory`: what is created is given back.
use mathlib.Core.Path.{fun_ext}
use context_switching.Prelude.{
  ℕ, ◌≡◌, ◌≢◌, ◌⊎◌, refl, Bool, true, false, Option, none, some, arith, Option-cases, inl, inr,
  Bool-cases,
}
use context_switching.Prelude.Threads.{put}
use context_switching.ContextSwitch.Resources.{
  Kernel, SharedMemory, ShmAnswers, create_pipe, destroy_pipe, create_shared, destroy_shared, close,
  munmap, close_and_unlink, map_memory, opened,
}

-- Two descriptors that are not open, if any.
abbrev pub FreshPipe : Option (ℕ × ℕ) → Kernel → Type 0
FreshPipe none k = Unit
FreshPipe (some (r, w)) k = (r ≢ w) × (k.open_fds r ≡ false) × (k.open_fds w ≡ false)

pub destroy_pipe-create_pipe :
    (answer : Option (ℕ × ℕ)) (k : Kernel)
    → FreshPipe answer k
    → destroy_pipe (create_pipe answer k).0 (create_pipe answer k).1 ≡ some k
unfolding destroy_pipe create_pipe close
destroy_pipe-create_pipe none k h = refl
destroy_pipe-create_pipe (some (r, w)) k h =
    let (n, f, g) = h in
    let back : put w false (put r false (put w true (put r true k.open_fds))) ≡ k.open_fds =
      fun_ext (λ x. ground (arith, n, f, g)) in
    ground (arith, n, back)

abbrev pub is_pipe : Option (ℕ × ℕ) → Bool
is_pipe none = false
is_pipe (some ends) = true

pub valid_lem :
    (answer : Option (ℕ × ℕ)) (k : Kernel) → (create_pipe answer k).0.valid ≡ is_pipe answer
unfolding create_pipe
valid_lem none k = refl
valid_lem (some (r, w)) k = refl

-- A descriptor and an address that are not in use, if any, and a name that is not taken.
pub record FreshShm (a : ShmAnswers) (k : Kernel) : Type 0 where
  pub free_fd : (fd : ℕ) → a.fd ≡ some fd → k.open_fds fd ≡ false
  pub free_addr : (addr : ℕ) → a.addr ≡ some addr → k.mapped addr ≡ false
  pub free_name : k.named ≡ false

-- Whether all three calls succeed.
abbrev pub shm_succeeds : Option ℕ → Bool → Option ℕ → Bool
shm_succeeds (some fd) true (some addr) = true
shm_succeeds _ _ _ = false

closed_again :
    (fd : ℕ) (k : Kernel)
    → k.open_fds fd ≡ false
    → k.named ≡ false
    → close_and_unlink fd (record (opened fd k) { named = true }) ≡ some k
unfolding close_and_unlink close
closed_again fd k f n =
    let back : put fd false (put fd true k.open_fds) ≡ k.open_fds =
      fun_ext (λ x. ground (arith, f)) in
    ground (arith, back, n)

-- Either a call fails, and the constructor that throws has given back what it took; or the destructor
-- gives it back.
pub create_shared_lem :
    (a : ShmAnswers) (k : Kernel)
    → FreshShm a k
    → ((shm_succeeds a.fd a.truncates a.addr ≡ false) × (create_shared a k ≡ some (k, none)))
      ⊎ ((m : SharedMemory) × (k1 : Kernel) × (shm_succeeds a.fd a.truncates a.addr ≡ true)
          × (create_shared a k ≡ some (k1, some m))
          × (destroy_shared m k1 ≡ some k))
unfolding create_shared map_memory destroy_shared munmap
create_shared_lem a k h = elim (Option-cases a.fd) [
  | inl e ↦ inl (ground (arith, e), rw e refl)
  | inr (fd, e) ↦
      let again = closed_again fd k (h.free_fd fd e) h.free_name in
      elim (Bool-cases a.truncates) [
        | inr t ↦ inl (ground (arith, e, t), rw (e, t, again) refl)
        | inl t ↦ elim (Option-cases a.addr) [
          | inl m ↦ inl (ground (arith, e, t, m), rw (e, t, m, again) refl)
          | inr (addr, m) ↦
              let back : put addr false (put addr true k.mapped) ≡ k.mapped =
                fun_ext (λ x. ground (arith, h.free_addr addr m)) in
              inr (
                record { addr = addr; fd = fd },
                record (record (opened fd k) { named = true }) { mapped = put addr true k.mapped },
                ground (arith, e, t, m),
                rw (e, t, m) refl,
                ground (arith, back, again),
              )
        ]
      ]
]
