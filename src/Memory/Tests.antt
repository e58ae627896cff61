-- ===== src/Memory/Tests.antt =====
-- Concrete runs of the memory allocator benchmark.
use context_switching.Prelude.{
  ℕ, ◌+◌, ◌*◌, ◌≡◌, refl, List, [], ◌∷◌, Option, none, some, true, false, arith,
}
use context_switching.Prelude.Words.{u64}
use context_switching.Prelude.Int.{negsuc}
use context_switching.Prelude.Double.{hundredths}
use context_switching.Prelude.CommandLine.{run, stoi, getopt_loop, same_text}
use context_switching.Memory.Statistics.{Statistics, update_allocation, update_free}
use context_switching.Memory.Pattern.{sequential, random, Draw, remainder, generate}
use context_switching.Memory.Benchmarker.{
  MemoryBenchmarker, Trial, Blocks, new_benchmarker, update_histogram, free_one, keep_block,
  speed_round, speed_loop, speed_test,
}
use context_switching.Memory.Benchmarker.Speed.Counters.{Sound}
use context_switching.Memory.Benchmarker.Speed.Run.{speed_test-Sound}
use context_switching.Memory.Fragmentation.{Slot, Round, fragmentation_round}
use context_switching.Memory.Fragmentation.Leak.{left, fragmentation_round_leaks}
use context_switching.Memory.Scalability.{run_threads, total_ops}
use context_switching.Memory.Scalability.Balance.{AllBalanced, allocations, scalability-Balanced}
use context_switching.Memory.CommandLine.{default_config, read_options}

abbrev decay : ℕ → ℕ
decay x = 0

abbrev draw : ℕ → Draw hundredths
draw n = record { first = n; second = n; fraction = 50 }

abbrev trial : ℕ → Trial hundredths
trial n = record { draw = draw n; alloc_time = some 1; free_draw = draw 0; free_time = 1 }

abbrev trials : List (Trial hundredths)
trials = trial 10 ∷ trial 20 ∷ trial 30 ∷ trial 40 ∷ []

speed_test-Sound_example :
    (b : MemoryBenchmarker hundredths) × (blocks : Blocks) × (speed_test hundredths decay random 8
        8192 trials
        (new_benchmarker hundredths 900 8192)
      ≡ some (b, blocks))
    × Sound 8192 24576 4 b blocks
speed_test-Sound_example =
    speed_test-Sound hundredths decay 900 random 8 8192 trials (λ e. cc) (omega arith) (omega arith)
      (omega arith)
      (
        (1, refl, omega arith),
        ((1, refl, omega arith), ((1, refl, omega arith), ((1, refl, omega arith), tt))),
      )

abbrev round : Round hundredths
round = record {
  allocations = (draw 1, true) ∷ (draw 2, true) ∷ (draw 3, false) ∷ (draw 4, true) ∷ [];
  choices = λ i. draw i;
}

fragmentation_round_leaks_example :
    (slots : List Slot) × (last : ℕ) × (fragmentation_round hundredths decay 8 8192 1 round 100
      ≡ some (slots, last))
    × (u64 last ≡ u64 (100 + left slots))
fragmentation_round_leaks_example =
    fragmentation_round_leaks hundredths decay 8 8192 1 round 100 (omega arith) (omega arith)

scalability-Balanced_example :
    (ss : List (Statistics hundredths)) × (run_threads hundredths decay sequential 8 8192 900
        (trials ∷ trials ∷ [])
      ≡ some ss)
    × AllBalanced (trials ∷ trials ∷ []) ss
    × (u64 (total_ops ss) ≡ u64 (2 * allocations ss))
scalability-Balanced_example =
    scalability-Balanced hundredths decay sequential 8 8192 (λ e. cc) (omega arith) (omega arith)
      900 (trials ∷ trials ∷ []) (omega arith, (omega arith, tt))

-- Blocks of 18, 28 and 38 bytes; the release of the first takes the size of the third off the count.
wrong_size : Option ℕ
wrong_size =
    elim (speed_test hundredths decay random 8 8192 (trial 10 ∷ trial 20 ∷ trial 30 ∷ [])
      (new_benchmarker hundredths 900 8192)) [
        | none ↦ none
        | some (b, blocks) ↦ some b.global_stats.current_allocated
      ]

wrong_size_lem : wrong_size ≡ some 46
unfolding wrong_size speed_test speed_loop speed_round keep_block update_histogram free_one generate
    remainder update_allocation update_free
wrong_size_lem = refl

-- An unknown name changes nothing, and no value is refused.
lenient :
    read_options default_config
      (record { opt = b't'; optarg = "sped" } ∷ record { opt = b'n'; optarg = "-5" } ∷ [])
    ≡ run (record default_config { num_iterations = negsuc 4 })
unfolding read_options getopt_loop stoi same_text
lenient = refl
