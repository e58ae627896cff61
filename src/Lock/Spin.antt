-- ===== src/Lock/Spin.antt =====
-- src/lock_visualizer_cpp.cpp: `LockContentionAnalyzer<SpinLock>`. `n` workers repeat
-- `perform_write_operation` under one `SpinLock`; each access to shared memory is one step, and the
-- steps interleave in any order.
pub mod Invariant
pub mod Counter
pub mod Safety
pub mod Progress
use mathlib.Core.Logic.{ite}
use native.Mathlib.Decide.{ℕ_discrete}
use context_switching.Prelude.{ℕ, suc, ◌+◌, ◌<◌, ◌≡◌, Bool, true, false}
use context_switching.Prelude.Words.{u64}
use context_switching.Prelude.Double.{Double}
use context_switching.Prelude.Threads.{put}
use context_switching.Lock.Statistics.{
  ThreadStatistics, no_statistics, add_wait_time, add_hold_time,
}

pub record Shared : Type 0 where
  pub flag : Bool  -- `SpinLock::flag_`
  pub stop : Bool  -- `stop_flag_`
  pub shared_counter : ℕ
  pub shared_data : ℕ → ℕ  -- ten thousand of them

abbrev pub data_size : ℕ
data_size = 10000

-- Where a worker stands.
pub data Place : Type 0 where
  looping : Place  -- the test of `stop_flag_`
  trying : Place  -- `try_lock`
  spinning : Place  -- the loop of `lock`
  contended : Place  -- before `lock_contentions` grows
  acquired : Place  -- before `add_wait_time`
  timed : Place  -- before `lock_acquisitions` grows
  writing : Place  -- before the write of `shared_data_[index]`
  counting : Place  -- before `shared_counter_` grows
  leaving : Place  -- before `unlock`
  released : Place  -- before `add_hold_time` and the growth of `write_operations`
  ended : Place

module _ (F : Double) where
  -- One step of one worker, with its own statistics. Times and random numbers are any.
  pub data Move (m : Shared) (s : ThreadStatistics F)
      : Place → Shared → ThreadStatistics F → Place → Type 0 where
    again : m.stop ≡ false → Move m s looping m s trying
    quit : m.stop ≡ true → Move m s looping m s ended
    try_free : m.flag ≡ false → Move m s trying (record m { flag = true }) s acquired
    try_busy : m.flag ≡ true → Move m s trying m s spinning
    spin_free : m.flag ≡ false → Move m s spinning (record m { flag = true }) s contended
    spin_busy : m.flag ≡ true → Move m s spinning m s spinning
    note_contention :
        Move m s contended m (record s { lock_contentions = u64 (s.lock_contentions + 1) }) acquired
    note_wait : (time : F.Num) → Move m s acquired m (add_wait_time F time s) timed
    note_acquisition :
        Move m s timed m (record s { lock_acquisitions = u64 (s.lock_acquisitions + 1) }) writing
    write :
        (index value : ℕ)
        → index < data_size
        → Move m s writing (record m { shared_data = put index value m.shared_data }) s counting
    count : Move m s counting (record m { shared_counter = u64 (m.shared_counter + 1) }) s leaving
    unlock : Move m s leaving (record m { flag = false }) s released
    note_operation :
        (time : F.Num)
        → Move m s released m
            (record (add_hold_time F time s) { write_operations = u64 (s.write_operations + 1) })
            looping

  pub record System : Type 0 where
    pub mem : Shared
    pub place : ℕ → Place
    pub stats : ℕ → ThreadStatistics F

  pub data Step (n : ℕ) (s : System) : System → Type 0 where
    work :
        (i : ℕ) {m : Shared} {t : ThreadStatistics F} {p : Place}
        → i < n
        → Move s.mem (s.stats i) (s.place i) m t p
        → Step n s (record { mem = m; place = put i p s.place; stats = put i t s.stats })
    -- The caller sets `stop_flag_` when the time is over.
    time_over : Step n s (record s { mem = record s.mem { stop = true } })

  abbrev pub initial : (ℕ → ℕ) → System
  initial values = record {
    mem = record { flag = false; stop = false; shared_counter = 0; shared_data = values };
    place = λ _. looping;
    stats = λ _. no_statistics F;
  }

  pub data Reach (n : ℕ) : System → Type 0 where
    start : Reach n (initial (λ _. 0))
    later : {s t : System} → Reach n s → Step n s t → Reach n t

-- Between the success of `test_and_set` and `clear`.
abbrev pub holds : Place → Bool
holds contended = true
holds acquired = true
holds timed = true
holds writing = true
holds counting = true
holds leaving = true
holds _ = false
