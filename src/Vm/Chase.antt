-- ===== src/Vm/Chase.antt =====
-- src/vm_explorer.cpp: `pointer_chase`. A node is its number, and the pointers `next` are a function
-- on the numbers. Nothing of the tool calls this member.
pub mod Nodes
use mathlib.Core.Logic.{ite}
use native.Mathlib.Decide.{ℕ_discrete}
use context_switching.Prelude.{
  ℕ, zero, suc, ◌-◌, ◌*◌, ◌/◌, List, [], ◌∷◌, ◌++◌, Option, none, some, ltb, ◌==◌, if◌then◌else◌,
  ◌>>=◌,
}
use context_switching.Vm.Block.{update}
use context_switching.Vm.Access.{cache_line_size}

-- `nodes[i].next = &nodes[i + 1]`, from i on, in so many rounds.
unfoldable pub create_list : ℕ → ℕ → (ℕ → ℕ) → ℕ → ℕ
create_list zero i next = next
create_list (suc rounds) i next = create_list rounds (suc i) (update next i (suc i))

-- `std::swap(nodes[i].next, nodes[j].next)`
abbrev pub swap : ℕ → ℕ → (ℕ → ℕ) → ℕ → ℕ
swap i j next = update (update next i (next j)) j (next i)

-- The exchanges from i on, where `dist(rng_)` gives `draws i` in the round for i.
unfoldable pub shuffle : ℕ → ℕ → (ℕ → ℕ) → (ℕ → ℕ) → ℕ → ℕ
shuffle zero i draws next = next
shuffle (suc rounds) i draws next = shuffle rounds (suc i) draws (swap i (draws i) next)

-- The pointers of `num_nodes` nodes, that hold `before` at first. With no node the loops run up to
-- `num_nodes - 1`, which wraps round, out of bounds.
unfoldable pub build : ℕ → (ℕ → ℕ) → (ℕ → ℕ) → Option (ℕ → ℕ)
build zero draws before = none
build (suc last) draws before =
    some (shuffle last 0 draws (update (create_list last 0 before) last 0))

abbrev record_visit : ℕ → Option (List ℕ × ℕ) → Option (List ℕ × ℕ)
record_visit current rest = do (visited, final) ← rest; some (current ∷ visited, final)

-- `current = current->next`, so often: the nodes that are read and the node where it ends. A node
-- outside the buffer is `none`.
unfoldable pub follow : ℕ → ℕ → (ℕ → ℕ) → ℕ → Option (List ℕ × ℕ)
follow zero num_nodes next current = some ([], current)
follow (suc n) num_nodes next current =
    let rest = follow n num_nodes next (next current) in
    if ltb current num_nodes then record_visit current rest else none

unfoldable pub pointer_chase : ℕ → ℕ → (ℕ → ℕ) → (ℕ → ℕ) → Option (List ℕ × ℕ)
pointer_chase size iterations draws before =
    let num_nodes = size / cache_line_size in
    do next ← build num_nodes draws before; follow (iterations * num_nodes) num_nodes next 0
