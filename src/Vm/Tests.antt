-- ===== src/Vm/Tests.antt =====
-- src/vm_explorer.cpp: the tools on concrete inputs.
use mathlib.Core.List.Perm
use native.Mathlib.Decide.{ℕ_discrete}
use context_switching.Prelude.{
  ℕ, zero, suc, ◌*◌, ◌%◌, ◌^◌, ◌<◌, ◌≡◌, ◌≢◌, refl, sym, subst, ◌∙◌, inl, inr, Option-cases, Bool,
  true, false, List, [], ◌∷◌, none, some, ltb, ◌==◌, if◌then◌else◌, All, length, arith,
}
use context_switching.Prelude.Occurrences.{iota}
use context_switching.Prelude.CommandLine.{Opt, getopt_loop, same_text}
use context_switching.Vm.Block.{
  State, Answers, Op, construct, destroy, move_construct, move_assign, allocate, map_failed,
  initial, run,
}
use context_switching.Vm.Block.Scope.{allocate-some}
use context_switching.Vm.Block.Owner.{Owners, Agrees, owner_run, no_owners}
use context_switching.Vm.Block.Owner.Refines.{nothing_leaks, blocks_refine_owners, initial-Agrees}
use context_switching.Vm.Access.{Memory, sequential_access, random_access, stride_access, bump}
use context_switching.Vm.Access.Places.{iterate}
use context_switching.Vm.Access.Written.{written, every, accesses_agree}
use context_switching.Vm.Chase.{build, follow, shuffle, create_list, pointer_chase}
use context_switching.Vm.Chase.Nodes.{IsRearrangement, pointer_chase_total, pointer_chase_skips}
use context_switching.Vm.CommandLine.{default_config, read_options}
use context_switching.Vm.Explorer.{Machine, Result}
use context_switching.Vm.Explorer.Tidy.{IsSystem}
use context_switching.Vm.Explorer.Run.{main}
use context_switching.Vm.Explorer.Run.Complete.{main_gives_back, printed_by}

abbrev at : ℕ → Answers
at p = record { first = p; retry = map_failed; aligned = some p }

-- Two blocks, of which one ends up in a third variable and then in the second.
abbrev two_blocks : List Op
two_blocks =
    construct 0 8192 true false (at 4096)
    ∷ move_construct 1 0
    ∷ construct 2 64 false false (at 16384)
    ∷ move_assign 2 1
    ∷ destroy 1
    ∷ destroy 0
    ∷ destroy 2
    ∷ []

abbrev still_one : List Op
still_one = construct 0 8192 true false (at 4096) ∷ move_construct 1 0 ∷ destroy 0 ∷ []

nothing_leaks_example :
    (t : State) × (run initial two_blocks ≡ some t) × ((p : ℕ) → t.region p ≡ none)
unfolding ℕ_discrete allocate owner_run
nothing_leaks_example = nothing_leaks two_blocks _ refl (λ x. ground arith)

-- The block in variable 1 owns the region.
abbrev one_owner : Owners
unfolding owner_run
one_owner = elim (owner_run no_owners still_one) [ none ↦ no_owners | some b ↦ b ]

blocks_refine_owners_example : (t : State) × (run initial still_one ≡ some t) × Agrees one_owner t
unfolding ℕ_discrete allocate owner_run
blocks_refine_owners_example =
    blocks_refine_owners still_one no_owners one_owner initial initial-Agrees refl

abbrev counting : Memory
counting p = p % 256

abbrev shuffled_lines : List ℕ
shuffled_lines = 2 ∷ 0 ∷ 1 ∷ []

accesses_agree_example :
    (sequential_access 192 2 counting ≡ some (iterate 2 (written (every 64 192) bump) counting))
    × (random_access 192 2 shuffled_lines counting ≡ sequential_access 192 2 counting)
    × (stride_access 192 2 64 counting ≡ sequential_access 192 2 counting)
accesses_agree_example =
    accesses_agree 192 2 shuffled_lines counting (omega arith) (omega arith)
      (Perm.trans (Perm.swap 0 2 (1 ∷ [])) (Perm.cons 0 (Perm.swap 1 2 [])))

-- A draw of the last node each time.
abbrev last_draw : ℕ → ℕ
last_draw k = 2

pointer_chase_total_example :
    (next : ℕ → ℕ) × (build 3 last_draw counting ≡ some next)
    × IsRearrangement 3 next
    × (visited : List ℕ) × (final : ℕ) × (pointer_chase 200 2 last_draw counting
        ≡ some (visited, final))
    × (length visited ≡ 2 * 3)
    × All (λ a. a < 3) visited
pointer_chase_total_example =
    pointer_chase_total 200 2 last_draw counting (omega arith) (λ k l. omega arith)

-- The first node is exchanged with the second, and no other.
abbrev one_draw : ℕ → ℕ
one_draw zero = 1
one_draw (suc k) = suc k

pointer_chase_skips_example :
    (visited : List ℕ) × (final : ℕ) × (pointer_chase 200 2 one_draw counting
      ≡ some (visited, final))
    × (length visited ≡ 2 * 3)
    × All (λ a. a ≢ 0 → 1 < a) visited
pointer_chase_skips_example =
    pointer_chase_skips 200 2 1 one_draw counting (omega arith) (omega arith) refl
      (λ k p. ground arith)

skipping_run : pointer_chase 200 2 one_draw counting ≡ some (0 ∷ 2 ∷ 0 ∷ 2 ∷ 0 ∷ 2 ∷ [], 0)
unfolding ℕ_discrete pointer_chase build follow shuffle create_list
skipping_run = refl

-- A system that gives out two addresses.
abbrev slot : State → ℕ → ℕ
slot s size =
    if ltb size (2 ^ 47)
    then elim (s.region 4096) [
      | none ↦ 4096
      | some g ↦ elim (s.region 8192) [ none ↦ 8192 | some h ↦ map_failed ]
    ]
    else map_failed

abbrev two_slots : Machine
two_slots = record {
  answers = λ s size. record {
    first = slot s size;
    retry = map_failed;
    aligned = if slot s size == map_failed then none else some (slot s size);
  };
  shuffled = λ n. iota 0 n;
  pipe_fails = false;
}

slot_lem :
    (s : State) (size : ℕ)
    → slot s size ≢ map_failed
    → (s.region (slot s size) ≡ none) × (size < 2 ^ 47)
slot_lem s size n = elim (Option-cases (s.region 4096)) [
  | inl f ↦ ground (arith, n, f)
  | inr (g, f) ↦ elim (Option-cases (s.region 8192)) [
    | inl k ↦ ground (arith, n, f, k)
    | inr (h, k) ↦ ground (arith, n, f, k)
  ]
]

slot_free :
    (s : State) (size p : ℕ) (use_mmap huge : Bool)
    → allocate (two_slots.answers s size) use_mmap huge ≡ some p
    → (s.region p ≡ none) × (size < 2 ^ 47)
slot_free s size p use_mmap huge e =
    let from : (p ≢ map_failed) × (p ≡ slot s size) =
      elim (allocate-some (two_slots.answers s size) use_mmap huge p e) [
        | inl (n, inl f) ↦ (n, f)
        | inl (n, inr f) ↦ absurd (n f)
        | inr f ↦ ground (arith, f)
      ] in
    let (n, f) = from in
    subst (λ q. (s.region q ≡ none) × (size < 2 ^ 47)) (sym f) (slot_lem s size (λ z. n (f ∙ z)))

two_slots-IsSystem : IsSystem two_slots
two_slots-IsSystem = record {
  fresh_address = λ s size p use_mmap huge e. (slot_free s size p use_mmap huge e).0;
  fits = λ s size p use_mmap huge e. (slot_free s size p use_mmap huge e).1;
}

abbrev compare_options : List Opt
compare_options = record { opt = b't'; optarg = "mmap" } ∷ []

main_gives_back_example :
    (rs : List Result) × (status : ℕ) × (main compare_options two_slots counting
      ≡ some (initial, rs, status))
    × (length rs ≡ printed_by (read_options default_config compare_options))
main_gives_back_example =
    main_gives_back compare_options two_slots two_slots-IsSystem (λ n. Perm.refl (iota 0 n))
      counting

compare_options_lem : printed_by (read_options default_config compare_options) ≡ 4
unfolding getopt_loop same_text read_options
compare_options_lem = refl
