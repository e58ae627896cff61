-- ===== src/Lock/ReadWrite.antt =====
-- src/lock_visualizer_cpp.cpp: `LockContentionAnalyzer<std::shared_mutex>`. `n` workers repeat
-- `perform_read_operation` and `perform_write_operation`; each access to shared memory is one step, and
-- the steps interleave in any order.
pub mod Safety
pub mod Counters
use native.Mathlib.Decide.{ℕ_discrete}
use context_switching.Prelude.{ℕ, ◌+◌, ◌-◌, ◌<◌, ◌≡◌, Bool, true, false}
use context_switching.Prelude.Words.{u64}
use context_switching.Prelude.Double.{Double}
use context_switching.Prelude.Threads.{put}
use context_switching.Lock.Statistics.{
  ThreadStatistics, no_statistics, add_wait_time, add_hold_time,
}
use context_switching.Lock.Spin.{data_size}
use context_switching.Lock.Workload.{Operation, reading, writing}

-- The `std::shared_mutex` as the standard describes it, with the data it protects.
pub record Protected : Type 0 where
  pub writer : Bool  -- locked by `lock` or `try_lock`
  pub readers : ℕ  -- locked so many times by `lock_shared` or `try_lock_shared`
  pub stop : Bool  -- `stop_flag_`
  pub shared_counter : ℕ
  pub shared_data : ℕ → ℕ

-- When the mutex can be locked for an operation.
abbrev pub IsFree : Operation → Protected → Type 0
IsFree reading m = m.writer ≡ false
IsFree writing m = (m.writer ≡ false) × (m.readers ≡ 0)

abbrev pub granted : Operation → Protected → Protected
granted reading m = record m { readers = m.readers + 1 }
granted writing m = record m { writer = true }

abbrev pub given_back : Operation → Protected → Protected
given_back reading m = record m { readers = m.readers - 1 }
given_back writing m = record m { writer = false }

-- Where a worker stands.
pub data Position : Type 0 where
  looping : Position  -- the test of `stop_flag_`
  trying : Operation → Position  -- `try_lock_shared` or `try_lock`
  blocked : Operation → Position  -- `lock_shared` or `lock`
  contended : Operation → Position  -- before `lock_contentions` grows
  acquired : Operation → Position  -- before `add_wait_time`
  timed : Operation → Position  -- before `lock_acquisitions` grows
  working : Operation → Position  -- before `shared_data_[index]` is read or written
  counting : Position  -- before `shared_counter_` grows
  leaving : Operation → Position  -- before `unlock_shared` or `unlock`
  released : Operation → Position  -- before `add_hold_time` and the count of the operation
  ended : Position

abbrev pub count_operation : {F : Double} → Operation → ThreadStatistics F → ThreadStatistics F
count_operation reading s = record s { read_operations = u64 (s.read_operations + 1) }
count_operation writing s = record s { write_operations = u64 (s.write_operations + 1) }

module _ (F : Double) where
  -- One step of one worker, with its own statistics. Times and random numbers are any.
  pub data Advance (m : Protected) (s : ThreadStatistics F)
      : Position → Protected → ThreadStatistics F → Position → Type 0 where
    again : (o : Operation) → m.stop ≡ false → Advance m s looping m s (trying o)
    quit : m.stop ≡ true → Advance m s looping m s ended
    try_locks : (o : Operation) → IsFree o m → Advance m s (trying o) (granted o m) s (acquired o)
    -- The standard lets `try_lock` and `try_lock_shared` fail on a mutex that is free, too.
    try_fails : (o : Operation) → Advance m s (trying o) m s (blocked o)
    lock : (o : Operation) → IsFree o m → Advance m s (blocked o) (granted o m) s (contended o)
    note_contention :
        (o : Operation)
        → Advance m s
            (contended o)
            m
            (record s { lock_contentions = u64 (s.lock_contentions + 1) })
            (acquired o)
    note_wait :
        (o : Operation) (time : F.Num)
        → Advance m s (acquired o) m (add_wait_time F time s) (timed o)
    note_acquisition :
        (o : Operation)
        → Advance m s
            (timed o)
            m
            (record s { lock_acquisitions = u64 (s.lock_acquisitions + 1) })
            (working o)
    read : (index : ℕ) → index < data_size → Advance m s (working reading) m s (leaving reading)
    write :
        (index value : ℕ)
        → index < data_size
        → Advance m s
            (working writing)
            (record m { shared_data = put index value m.shared_data })
            s
            counting
    count :
        Advance m s counting
          (record m { shared_counter = u64 (m.shared_counter + 1) })
          s
          (leaving writing)
    unlock : (o : Operation) → Advance m s (leaving o) (given_back o m) s (released o)
    note_operation :
        (o : Operation) (time : F.Num)
        → Advance m s (released o) m (count_operation o (add_hold_time F time s)) looping

  pub record Crowd : Type 0 where
    pub mem : Protected
    pub position : ℕ → Position
    pub stats : ℕ → ThreadStatistics F

  pub data Proceed (n : ℕ) (s : Crowd) : Crowd → Type 0 where
    work :
        (i : ℕ) {m : Protected} {t : ThreadStatistics F} {p : Position}
        → i < n
        → Advance s.mem (s.stats i) (s.position i) m t p
        → Proceed n s (record { mem = m; position = put i p s.position; stats = put i t s.stats })
    -- The caller sets `stop_flag_` when the time is over.
    time_over : Proceed n s (record s { mem = record s.mem { stop = true } })

  abbrev pub gathered : Crowd
  gathered = record {
    mem = record {
      writer = false;
      readers = 0;
      stop = false;
      shared_counter = 0;
      shared_data = λ _. 0;
    };
    position = λ _. looping;
    stats = λ _. no_statistics F;
  }

  pub data Reached (n : ℕ) : Crowd → Type 0 where
    start : Reached n gathered
    later : {s t : Crowd} → Reached n s → Proceed n s t → Reached n t

-- Between the locking for a read, or for a write, and its end.
abbrev pub reads : Position → ℕ
reads (contended reading) = 1
reads (acquired reading) = 1
reads (timed reading) = 1
reads (working reading) = 1
reads (leaving reading) = 1
reads _ = 0

abbrev pub writes : Position → ℕ
writes (contended writing) = 1
writes (acquired writing) = 1
writes (timed writing) = 1
writes (working writing) = 1
writes counting = 1
writes (leaving writing) = 1
writes _ = 0
