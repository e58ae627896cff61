-- ===== src/ContextSwitch/Resources.antt =====
-- src/context_switch_cpp.cpp: `PipeRAII` and `SharedMemory`, the owners of descriptors, of a mapping
-- and of the name of a shared memory object. What the system answers is an input, and a release of
-- what is not there is the result `none`.
pub mod Scopes
use native.Mathlib.Decide.{ℕ_discrete}
use context_switching.Prelude.{ℕ, Bool, true, false, ◌&&◌, Option, none, some, if◌then◌else◌, ◌>>=◌}
use context_switching.Prelude.Threads.{put}

pub record Kernel : Type 0 where
  pub open_fds : ℕ → Bool
  pub mapped : ℕ → Bool
  pub named : Bool

unfoldable pub close : ℕ → Kernel → Option Kernel
close fd k = if k.open_fds fd then some (record k { open_fds = put fd false k.open_fds }) else none

unfoldable pub munmap : ℕ → Kernel → Option Kernel
munmap addr k = if k.mapped addr then some (record k { mapped = put addr false k.mapped }) else none

abbrev opened : ℕ → Kernel → Kernel
opened fd k = record k { open_fds = put fd true k.open_fds }

pub record PipeRaii : Type 0 where
  pub read_fd : ℕ
  pub write_fd : ℕ
  pub valid : Bool

-- `PipeRAII()`, where `pipe` returns two descriptors or fails.
unfoldable pub create_pipe : Option (ℕ × ℕ) → Kernel → PipeRaii × Kernel
create_pipe none k = (record { read_fd = 0; write_fd = 0; valid = false }, k)
create_pipe (some (r, w)) k =
    (record { read_fd = r; write_fd = w; valid = true }, opened w (opened r k))

-- `~PipeRAII()`
pub destroy_pipe : PipeRaii → Kernel → Option Kernel
unfolding close
destroy_pipe p k = if p.valid then (close p.read_fd k >>= close p.write_fd) else some k

-- The new pipe, and the one moved from.
abbrev pub move_pipe : PipeRaii → PipeRaii × PipeRaii
move_pipe other = (other, record other { valid = false })

-- `p = std::move(other)`, for another pipe.
pub assign_pipe : PipeRaii → PipeRaii → Kernel → Option (PipeRaii × PipeRaii × Kernel)
unfolding destroy_pipe
assign_pipe p other k = do
  after ← destroy_pipe p k
  some (other, record other { valid = false }, after)

pub record SharedMemory : Type 0 where
  pub addr : ℕ
  pub fd : ℕ

-- The answers to `shm_open`, `ftruncate` and `mmap`.
pub record ShmAnswers : Type 0 where
  pub fd : Option ℕ
  pub truncates : Bool
  pub addr : Option ℕ

-- `close(fd); shm_unlink(name)`
unfoldable pub close_and_unlink : ℕ → Kernel → Option Kernel
unfolding close
close_and_unlink fd k = do after ← close fd k; some (record after { named = false })

-- An exception of the constructor is a missing object.
abbrev give_up : ℕ → Kernel → Option (Kernel × Option SharedMemory)
give_up fd k = do after ← close_and_unlink fd k; some (after, none)

map_memory : ℕ → Option ℕ → Kernel → Option (Kernel × Option SharedMemory)
unfolding close_and_unlink
map_memory fd none k = give_up fd k
map_memory fd (some addr) k =
    some (record k { mapped = put addr true k.mapped }, some (record { addr = addr; fd = fd }))

-- `SharedMemory(sz)`
pub create_shared : ShmAnswers → Kernel → Option (Kernel × Option SharedMemory)
unfolding close_and_unlink map_memory
create_shared a k = elim a.fd [
  | none ↦ some (k, none)
  | some fd ↦
      let named = record (opened fd k) { named = true } in
      if a.truncates then map_memory fd a.addr named else give_up fd named
]

-- `~SharedMemory()`
unfoldable pub destroy_shared : SharedMemory → Kernel → Option Kernel
unfolding munmap close_and_unlink
destroy_shared m k = do after ← munmap m.addr k; close_and_unlink m.fd after
