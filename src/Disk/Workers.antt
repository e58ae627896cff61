-- ===== src/Disk/Workers.antt =====
-- src/disk_io_analyzer_cpp.cpp: `run_io_test` and its workers, which meet at a barrier before they
-- start. Each access to the barrier, to the stop flag and to a file is one step, and the steps of the
-- caller and of the workers interleave in any order.
pub mod Barrier
pub mod Hangs
use native.Mathlib.Decide.{ℕ_discrete}
use context_switching.Prelude.{ℕ, suc, ◌<◌, ◌≡◌, Bool, true, false}
use context_switching.Prelude.Threads.{put}

-- Where a worker stands.
pub data Worker : Type 0 where
  unlaunched : Worker
  opening : Worker
  ready : Worker  -- before `arrive_and_wait`
  waiting : Worker  -- in `arrive_and_wait`
  executing : Worker
  closed : Worker  -- returned, after its pattern
  gone : Worker  -- returned, since its file could not be opened

-- Where the caller stands. An exception leaves the loop of launches: the barrier and the stop flag are
-- destroyed, and then the destructors of the futures wait for the workers launched before.
pub data Caller : Type 0 where
  launching : ℕ → Caller
  sleeping : Caller
  joining : Caller
  unwinding : ℕ → Caller
  returned : Caller
  thrown : Caller
  undefined : Caller  -- a worker has used the barrier or the stop flag after their end

pub record System : Type 0 where
  pub arrived : ℕ  -- arrivals at `sync_barrier`
  pub stop_flag : Bool
  pub caller : Caller
  pub worker : ℕ → Worker

-- What a future waits for.
abbrev pub is_over : Worker → Bool
is_over unlaunched = true
is_over closed = true
is_over gone = true
is_over _ = false

-- Whether a worker has its use of the barrier or of the stop flag still before it, or is in it.
abbrev pub uses_locals : Worker → Bool
uses_locals ready = true
uses_locals waiting = true
uses_locals executing = true
uses_locals _ = false

-- Whether the barrier and the stop flag exist.
abbrev pub in_scope : Caller → Bool
in_scope (launching _) = true
in_scope sleeping = true
in_scope joining = true
in_scope _ = false

-- One step, with `n` threads. The barrier lets no one pass before n have arrived. Nothing is said of
-- what the workers do with a barrier or a stop flag that is destroyed: this is undefined.
pub data Step (n : ℕ) (s : System) : System → Type 0 where
  launch :
      (k : ℕ)
      → k < n
      → s.caller ≡ launching k
      → Step n s (record s { caller = launching (suc k); worker = put k opening s.worker })
  create_fails :
      (k : ℕ) → k < n → s.caller ≡ launching k → Step n s (record s { caller = unwinding k })
  all_launched : s.caller ≡ launching n → Step n s (record s { caller = sleeping })
  wake : s.caller ≡ sleeping → Step n s (record s { caller = joining; stop_flag = true })
  join :
      s.caller ≡ joining
      → ((i : ℕ) → i < n → is_over (s.worker i) ≡ true)
      → Step n s (record s { caller = returned })
  unwind :
      (k : ℕ)
      → s.caller ≡ unwinding k
      → ((i : ℕ) → i < n → is_over (s.worker i) ≡ true)
      → Step n s (record s { caller = thrown })
  use_destroyed :
      (k i : ℕ)
      → s.caller ≡ unwinding k
      → i < n
      → uses_locals (s.worker i) ≡ true
      → Step n s (record s { caller = undefined })
  open_file :
      (i : ℕ) → i < n → s.worker i ≡ opening → Step n s (record s { worker = put i ready s.worker })
  open_fails :
      (i : ℕ) → i < n → s.worker i ≡ opening → Step n s (record s { worker = put i gone s.worker })
  arrive :
      (i : ℕ)
      → i < n
      → s.worker i ≡ ready
      → in_scope s.caller ≡ true
      → Step n s (record s { arrived = suc s.arrived; worker = put i waiting s.worker })
  pass :
      (i : ℕ)
      → i < n
      → s.worker i ≡ waiting
      → s.arrived ≡ n
      → in_scope s.caller ≡ true
      → Step n s (record s { worker = put i executing s.worker })
  finish :
      (i : ℕ)
      → i < n
      → s.worker i ≡ executing
      → s.stop_flag ≡ true
      → in_scope s.caller ≡ true
      → Step n s (record s { worker = put i closed s.worker })

abbrev pub initial : System
initial = record { arrived = 0; stop_flag = false; caller = launching 0; worker = λ _. unlaunched }

pub data Steps (n : ℕ) (s : System) : System → Type 0 where
  done : Steps n s s
  next : {t u : System} → Steps n s t → Step n t u → Steps n s u
