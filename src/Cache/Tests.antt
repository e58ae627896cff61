-- ===== src/Cache/Tests.antt =====
-- Concrete runs of the cache analyzer.
use context_switching.Prelude.{
  ℕ, ◌*◌, ◌%◌, ◌^◌, ◌≤◌, ◌<◌, ◌++◌, map, ◌≡◌, refl, false, List, [], ◌∷◌, some, arith, replicate,
}
use context_switching.Prelude.Int.{pos}
use context_switching.Prelude.CommandLine.{Opt, run, stoi, getopt_loop, same_text}
use context_switching.Prelude.Threads.{put}
use context_switching.Prelude.Occurrences.{iota}
use context_switching.Cache.Sharing
use context_switching.Cache.Sharing.{additions, shared}
use context_switching.Cache.Sharing.Final.{bouncing_counts}
use context_switching.Cache.Metrics.{SystemInfo, detect}
use context_switching.Cache.Chase.{build, pass, chase}
use context_switching.Cache.Chase.Cycle.{one_cycle}
use context_switching.Cache.CommandLine.{Config, default_config, prefetcher, read_options}

abbrev system : SystemInfo
system = detect 0 (512 * 1024) 0

abbrev ten : List ℕ
ten = replicate 10 7

one_cycle_example :
    (next : ℕ → ℕ) × (build (2 ∷ 0 ∷ 1 ∷ []) ≡ some next)
    × (pass 3 next 0 ≡ (1 ∷ 2 ∷ 0 ∷ [], 0))
    × (chase 100 3 next 0 0 ≡ (300, 0))
one_cycle_example = one_cycle (2 ∷ []) (1 ∷ []) 0 100 (
  (λ e. absurd (omega (arith, e)), (λ e. absurd (omega (arith, e)), tt)),
  ((λ e. absurd (omega (arith, e)), tt), (tt, tt)),
)

abbrev options : List Opt
options = record { opt = b't'; optarg = "prefetcher" } ∷ record { opt = b'T'; optarg = "64" } ∷ []

abbrev chosen : Config
chosen = record { test_type = prefetcher; num_threads = pos 64; verbose = false }

options_read : read_options default_config options ≡ run chosen
unfolding read_options getopt_loop stoi same_text
options_read = refl

-- One thread with one round: the first addition has been made.
abbrev first_added : Sharing.State
first_added = record {
  counter = put 0 1 (λ _. 0);
  left = put 0 (map (λ j. j % 7) (iota 0 100) ++ []) (λ _. additions 1);
}

first_added_reached : Sharing.Reach 1 1 shared 1 first_added
unfolding additions
first_added_reached = Sharing.later Sharing.start (Sharing.fetch_add 0 1 _ (omega arith) refl)

bouncing_counts_example :
    (1 ≤ 1 * (1 * 101))
    × (1 < 1 * (1 * 101) → (t : Sharing.State) × Sharing.Step 1 shared first_added t)
    × (1 ≡ 1 * (1 * 101)
        → (first_added.counter 0 ≡ 1 * (1 * 296)) × (first_added.counter 0 < 2 ^ 31))
bouncing_counts_example = bouncing_counts (omega arith) (omega arith) first_added_reached
