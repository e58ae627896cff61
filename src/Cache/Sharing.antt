-- ===== src/Cache/Sharing.antt =====
-- src/cache_analyzer_cpp.cpp: the threads of `false_sharing_analysis` and `cache_bouncing_analysis`,
-- which add to counters. Each `fetch_add` is one step, and the steps interleave in any order.
pub mod Final
use native.Mathlib.Decide.{ℕ_discrete}
use context_switching.Prelude.{ℕ, zero, suc, ◌+◌, ◌%◌, ◌^◌, ◌<◌, ◌≡◌, List, [], ◌∷◌, ◌++◌, map}
use context_switching.Prelude.Threads.{put}
use context_switching.Prelude.Occurrences.{iota}

-- `std::atomic<int>`, whose sums wrap round; the value from 2^31 on stands for a negative one.
abbrev pub u32 : ℕ → ℕ
u32 n = n % 2 ^ 32

-- What one round of the loop adds, one `fetch_add` after the other.
abbrev pub one_round : List ℕ
one_round = 1 ∷ map (λ j. j % 7) (iota 0 100)

unfoldable pub additions : ℕ → List ℕ
additions zero = []
additions (suc iterations) = one_round ++ additions iterations

-- The counters, and what each thread has still to add.
pub record State : Type 0 where
  pub counter : ℕ → ℕ
  pub left : ℕ → List ℕ

-- The counter that a thread adds to.
abbrev pub own : ℕ → ℕ
own thread_id = thread_id

abbrev pub shared : ℕ → ℕ
shared thread_id = 0

-- One `fetch_add`, with `n` threads.
pub data Step (n : ℕ) (slot : ℕ → ℕ) (s : State) : State → Type 0 where
  fetch_add :
      (i a : ℕ) (rest : List ℕ)
      → i < n
      → s.left i ≡ a ∷ rest
      → Step n slot s (record {
        counter = put (slot i) (u32 (s.counter (slot i) + a)) s.counter;
        left = put i rest s.left;
      })

abbrev pub start_with : ℕ → State
start_with iterations = record { counter = λ _. 0; left = λ _. additions iterations }

-- The states after so many steps.
pub data Reach (n iterations : ℕ) (slot : ℕ → ℕ) : ℕ → State → Type 0 where
  start : Reach n iterations slot 0 (start_with iterations)
  later :
      {k : ℕ} {s t : State}
      → Reach n iterations slot k s
      → Step n slot s t
      → Reach n iterations slot (suc k) t
