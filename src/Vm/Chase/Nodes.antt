-- ===== src/Vm/Chase/Nodes.antt =====
-- src/vm_explorer.cpp, `pointer_chase`: what the shuffle makes of the list.
use context_switching.Prelude.{
  ℕ, zero, suc, ◌+◌, ◌-◌, ◌*◌, ◌/◌, ◌≤◌, ◌<◌, ◌≡◌, ◌≢◌, refl, sym, ap, subst, ◌∙◌, List, [], ◌∷◌,
  some, ltb, ◌==◌, if◌then◌else◌, All, length, arith, lt→ltb,
}
use context_switching.Vm.Block.{update}
use context_switching.Vm.Access.{cache_line_size}
use context_switching.Vm.Chase.{create_list, swap, shuffle, build, follow, pointer_chase}

-- Each of the n nodes has one predecessor among them.
pub record IsRearrangement (n : ℕ) (next : ℕ → ℕ) : Type 0 where
  pub bounded : (a : ℕ) → a < n → next a < n
  pub distinct : (a b : ℕ) → a < n → b < n → next a ≡ next b → a ≡ b

create_list_lem :
    (rounds i a : ℕ) (next : ℕ → ℕ)
    → create_list rounds i next a
      ≡ (if ltb a i then next a else if ltb a (i + rounds) then suc a else next a)
unfolding create_list
create_list_lem zero i a next = ground arith
create_list_lem (suc rounds) i a next =
    ground (arith, create_list_lem rounds (suc i) a (update next i (suc i)))

created :
    (last a : ℕ) (before : ℕ → ℕ)
    → a ≤ last
    → update (create_list last 0 before) last 0 a ≡ (if a == last then 0 else suc a)
created last a before h = ground (arith, create_list_lem last 0 a before)

swap-IsRearrangement :
    (n i j : ℕ) (next : ℕ → ℕ)
    → i < n
    → j < n
    → IsRearrangement n next
    → IsRearrangement n (swap i j next)
swap-IsRearrangement n i j next h k r = record {
  bounded = λ a l. ground (arith, r.bounded i h, r.bounded j k, r.bounded a l);
  distinct = λ a b l m e. ground (
    arith,
    r.distinct a b l m,
    r.distinct i b h m,
    r.distinct j b k m,
    r.distinct a i l h,
    r.distinct a j l k,
    r.distinct i j h k,
  );
}

shuffle-IsRearrangement :
    (n rounds i : ℕ) (draws next : ℕ → ℕ)
    → i + rounds < n
    → ((k : ℕ) → k < n → draws k < n)
    → IsRearrangement n next
    → IsRearrangement n (shuffle rounds i draws next)
unfolding shuffle
shuffle-IsRearrangement n zero i draws next h d r = r
shuffle-IsRearrangement n (suc rounds) i draws next h d r =
    shuffle-IsRearrangement n rounds (suc i) draws (swap i (draws i) next) (omega arith) d
      (swap-IsRearrangement n i (draws i) next (omega arith) (d i (omega arith)) r)

build-IsRearrangement :
    (last : ℕ) (draws before : ℕ → ℕ)
    → ((k : ℕ) → k ≤ last → draws k ≤ last)
    → (next : ℕ → ℕ) × (build (suc last) draws before ≡ some next) × IsRearrangement (suc last) next
unfolding build
build-IsRearrangement last draws before d =
    let ring = update (create_list last 0 before) last 0 in
    (
      shuffle last 0 draws ring,
      refl,
      shuffle-IsRearrangement (suc last) last 0 draws ring (omega arith)
          (λ k l. ground (arith, d k))
          (record {
            bounded = λ a l. ground (arith, created last a before);
            distinct = λ a b l m e. ground (arith, created last a before, created last b before);
          }),
    )

follow_total :
    (n num_nodes : ℕ) (next : ℕ → ℕ) (current : ℕ)
    → IsRearrangement num_nodes next
    → current < num_nodes
    → (visited : List ℕ) × (final : ℕ) × (follow n num_nodes next current ≡ some (visited, final))
      × (length visited ≡ n)
      × All (λ a. a < num_nodes) visited
unfolding follow
follow_total zero num_nodes next current r h = ([], current, refl, refl, tt)
follow_total (suc n) num_nodes next current r h =
    let (visited, final, e, l, k) =
      follow_total n num_nodes next (next current) r (r.bounded current h) in
    (current ∷ visited, final, rw (lt→ltb _ _ h, e) refl, ap suc l, (h, k))

-- Whatever the shuffle draws among the nodes and whatever the buffer held before, the pointers of the
-- nodes of a buffer of at least 64 bytes are a rearrangement of the nodes, and the chase reads as many
-- nodes as it means to, all of them in the buffer.
pub pointer_chase_total :
    (size iterations : ℕ) (draws before : ℕ → ℕ)
    → cache_line_size ≤ size
    → ((k : ℕ) → k < size / cache_line_size → draws k < size / cache_line_size)
    → (next : ℕ → ℕ) × (build (size / cache_line_size) draws before ≡ some next)
      × IsRearrangement (size / cache_line_size) next
      × (visited : List ℕ) × (final : ℕ) × (pointer_chase size iterations draws before
          ≡ some (visited, final))
      × (length visited ≡ iterations * (size / cache_line_size))
      × All (λ a. a < size / cache_line_size) visited
unfolding pointer_chase
pointer_chase_total size iterations draws before h d =
    let n = size / cache_line_size in
    let last : suc (n - 1) ≡ n = omega arith in
    let (next, e, r) =
      subst (λ k. (next : ℕ → ℕ) × (build k draws before ≡ some next) × IsRearrangement k next) last
        (build-IsRearrangement (n - 1) draws before (λ k l. omega (arith, d k (omega arith)))) in
    let (visited, final, f, l, k) = follow_total (iterations * n) n next 0 r (omega arith) in
    (next, e, r, visited, final, rw e f, l, k)

-- An exchange of a node with itself changes nothing.
idle_shuffle :
    (rounds i a : ℕ) (draws next : ℕ → ℕ)
    → ((k : ℕ) → 0 < k → draws k ≡ k)
    → 0 < i
    → shuffle rounds i draws next a ≡ next a
unfolding shuffle
idle_shuffle zero i a draws next d p = refl
idle_shuffle (suc rounds) i a draws next d p =
    idle_shuffle rounds (suc i) a draws (swap i (draws i) next) d (omega arith)
    ∙ ground (arith, d i p)

follow_within :
    (P : ℕ → Type 0) (n num_nodes : ℕ) (next : ℕ → ℕ) (current : ℕ)
    → ((a : ℕ) → a < num_nodes → P a → P (next a))
    → IsRearrangement num_nodes next
    → current < num_nodes
    → P current
    → (visited : List ℕ) (final : ℕ) → follow n num_nodes next current ≡ some (visited, final)
    → All P visited
unfolding follow
follow_within P zero num_nodes next current c r h p visited final e =
    let f : visited ≡ [] = ground (arith, e) in rw f tt
follow_within P (suc n) num_nodes next current c r h p visited final e =
    let (others, last, f, l, k) =
      follow_total n num_nodes next (next current) r (r.bounded current h) in
    let g : visited ≡ current ∷ others = ground (arith, e, f, h) in
    rw g (
      p,
      follow_within P n num_nodes next (next current) c r (r.bounded current h) (c current h p)
          others last f,
    )

one_exchange :
    (last j a : ℕ) (draws before next : ℕ → ℕ)
    → 0 < j
    → j ≤ last
    → draws 0 ≡ j
    → ((k : ℕ) → 0 < k → draws k ≡ k)
    → build (suc last) draws before ≡ some next
    → a ≤ last
    → (a ≢ 0 → j < a)
    → next a ≢ 0
    → j < next a
unfolding build shuffle
one_exchange zero j a draws before next p h d i e l q n = absurd (omega arith)
one_exchange (suc m) j a draws before next p h d i e l q n =
    let ring = update (create_list (suc m) 0 before) (suc m) 0 in
    let f : next a ≡ shuffle m 1 draws (swap 0 (draws 0) ring) a = ground (arith, e) in
    let g = idle_shuffle m 1 a draws (swap 0 (draws 0) ring) i (omega arith) in
    let k : next a ≡ swap 0 j ring a = f ∙ g ∙ ap (λ x. swap 0 x ring a) d in
    ground (arith, k, created (suc m) a before, created (suc m) j before)

-- If the first exchange is one with a later node j and the others exchange nodes with themselves, the
-- list falls into two rings, and the chase never reads the nodes 1 to j.
pub pointer_chase_skips :
    (size iterations j : ℕ) (draws before : ℕ → ℕ)
    → 0 < j
    → j < size / cache_line_size
    → draws 0 ≡ j
    → ((k : ℕ) → 0 < k → draws k ≡ k)
    → (visited : List ℕ) × (final : ℕ) × (pointer_chase size iterations draws before
        ≡ some (visited, final))
      × (length visited ≡ iterations * (size / cache_line_size))
      × All (λ a. a ≢ 0 → j < a) visited
unfolding pointer_chase build shuffle
pointer_chase_skips size iterations j draws before p h d i =
    let n = size / cache_line_size in
    let (next, e, r, visited, final, f, l, k) =
      pointer_chase_total size iterations draws before (omega arith)
        (λ k l. ground (arith, d, i k)) in
    let last : n ≡ suc (n - 1) = omega arith in
    let built : build (suc (n - 1)) draws before ≡ some next =
      subst (λ k. build k draws before ≡ some next) last e in
    let run : pointer_chase size iterations draws before ≡ follow (iterations * n) n next 0 =
      rw e refl in
    (
      visited,
      final,
      f,
      l,
      follow_within (λ a. a ≢ 0 → j < a) (iterations * n) n next 0
          (λ a m q.
            one_exchange (n - 1) j a draws before next p (omega arith) d i built (omega arith) q)
          r (omega arith) (λ z. absurd (z refl)) visited final (sym run ∙ f),
    )
