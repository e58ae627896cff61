-- ===== src/Cache/Chase.antt =====
-- src/cache_analyzer_cpp.cpp: `PointerChaseList`. A node is its number, and the pointers `next` are a
-- function on the numbers; what a node holds besides is never compared.
pub mod Cycle
use mathlib.Core.Logic.{ite}
use native.Mathlib.Decide.{ℕ_discrete}
use context_switching.Prelude.{ℕ, zero, suc, ◌+◌, List, [], ◌∷◌, Option, none, some, length}
use context_switching.Prelude.Words.{u64}

-- `nodes_[a].next = &nodes_[b]`
abbrev pub set_next : ℕ → ℕ → (ℕ → ℕ) → ℕ → ℕ
set_next a b next n = ite (ℕ_discrete n a) b (next n)

-- The loop over the shuffled indices, and the last node, which leads to the first.
pub link : ℕ → List ℕ → (ℕ → ℕ) → ℕ → ℕ
link first [] next = next
link first (a ∷ []) next = set_next a first next
link first (a ∷ b ∷ rest) next = link first (b ∷ rest) (set_next a b next)

-- `PointerChaseList(num_nodes)`, given the shuffle. With no node the loop runs up to
-- `size_ - 1`, which wraps round, out of bounds.
pub build : List ℕ → Option (ℕ → ℕ)
build [] = none
build (a ∷ rest) = some (link a (a ∷ rest) (λ n. n))

-- One pass: the nodes read, in order, and the node where it ends.
unfoldable pub pass : ℕ → (ℕ → ℕ) → ℕ → List ℕ × ℕ
pass zero next current = ([], current)
pass (suc size) next current =
    let (visited, last) = pass size next (next current) in (next current ∷ visited, last)

-- `chase`: the accesses, and the node where it ends.
unfoldable pub chase : ℕ → ℕ → (ℕ → ℕ) → ℕ → ℕ → ℕ × ℕ
chase zero size next current accesses = (accesses, current)
chase (suc iterations) size next current accesses =
    let (visited, last) = pass size next current in
    chase iterations size next last (u64 (accesses + length visited))
