-- ===== src/Network/Server/Owned.antt =====
-- src/network_io_benchmarker_cpp.cpp, `handle_new_connections` and `handle_client_data`: which
-- descriptors are open, and which `select` watches.
use context_switching.Prelude.{
  ℕ, suc, ◌+◌, ◌≤◌, ◌<◌, ◌≡◌, refl, Bool, true, false, List, [], ◌∷◌, ◌++◌, Option, none, some,
  if◌then◌else◌, ltb, ◌==◌, length, length-append, arith, Bool-cases, inl, inr,
}
use context_switching.Prelude.Int.{pos_part}
use context_switching.Prelude.Double.{Double}
use context_switching.Prelude.Threads.{put}
use context_switching.Network.Socket.{close_fd, returns}
use context_switching.Network.Server.{
  fd_setsize, ConnectionInfo, Server, Exchange, higher, opened, add_connection, exchanged,
  count_exchange, must_close, hang_up, serve, keep, serve_if, handle_client_data,
}

abbrev pub bit : Bool → ℕ
bit false = 0
bit true = 1

abbrev pub at : ℕ → ℕ → ℕ
at x y = if x == y then 1 else 0

-- How many of the connections own the descriptor `x`.
abbrev pub held : ℕ → List ConnectionInfo → ℕ
held x [] = 0
held x (c ∷ connections) = at x c.fd + held x connections

-- A descriptor is open if it was open before, or for exactly one of the connections and of the others
-- that `pre` counts; the latter are those that are watched.
pub record Owned {F : Double} (base pre : ℕ → ℕ) (connections : List ConnectionInfo) (s : Server F)
    : Type 0 where
  pub kernel : (x : ℕ) → base x + pre x + held x connections ≡ bit (s.open_fds x)
  pub watched : (x : ℕ) → pre x + held x connections ≡ bit (s.master_fds x)

held-append :
    (x : ℕ) (cs : List ConnectionInfo) (c : ConnectionInfo)
    → held x (cs ++ c ∷ []) ≡ held x cs + at x c.fd
held-append x [] c = omega arith
held-append x (d ∷ cs) c = omega (arith, held-append x cs c)

module _ {F : Double} (base pre : ℕ → ℕ) where
  pub hang_up-Owned :
      (c : ConnectionInfo) (connections : List ConnectionInfo) (s : Server F)
      → Owned base pre (c ∷ connections) s
      → (t : Server F) × (hang_up F c.fd s ≡ some t) × Owned base pre connections t
  unfolding hang_up close_fd
  hang_up-Owned c connections s o =
      let here : s.open_fds c.fd ≡ true = ground (arith, o.kernel c.fd) in
      (
        record s { open_fds = put c.fd false s.open_fds; master_fds = put c.fd false s.master_fds },
        rw here refl,
        record {
          kernel = λ x. ground (arith, o.kernel x);
          watched = λ x. ground (arith, o.watched x);
        },
      )

  pub add_connection-Owned :
      (fd : ℕ) (connections : List ConnectionInfo) (s : Server F)
      → Owned base pre connections s
      → s.open_fds fd ≡ false
      → fd < fd_setsize
      → (cs : List ConnectionInfo) × (t : Server F) × (add_connection F fd
            (connections, opened F fd s)
          ≡ returns (cs, t))
        × Owned base pre cs t
        × (length cs ≡ length connections + 1)
  unfolding add_connection
  add_connection-Owned fd connections s o free small =
      let c : ConnectionInfo = record { fd = fd; bytes_sent = 0; bytes_received = 0 } in
      (
        connections ++ c ∷ [],
        record (opened F fd s) {
          master_fds = put fd true s.master_fds;
          max_fd = higher fd s.max_fd;
        },
        ground (arith, small),
        record {
          kernel = λ x. ground (arith, o.kernel x, free, held-append x connections c);
          watched = λ x. ground (arith, o.watched x, o.kernel x, free, held-append x connections c);
        },
        length-append connections (c ∷ []),
      )

-- The connections before the one at hand count among the others.
abbrev beside : (ℕ → ℕ) → ConnectionInfo → ℕ → ℕ
beside pre c x = pre x + at x c.fd

module _ {F : Double} (base : ℕ → ℕ) where
  set_aside :
      (pre : ℕ → ℕ) (c : ConnectionInfo) (connections : List ConnectionInfo) (s t : Server F)
      → t.open_fds ≡ s.open_fds
      → t.master_fds ≡ s.master_fds
      → t.max_fd ≡ s.max_fd
      → Owned base pre (c ∷ connections) s
      → Owned base (beside pre c) connections t
  set_aside pre c connections s t k w m o = record {
    kernel = λ x. rw k (omega (arith, o.kernel x));
    watched = λ x. rw w (omega (arith, o.watched x));
  }

  take_back :
      (pre : ℕ → ℕ) (c d : ConnectionInfo) (connections : List ConnectionInfo) (s : Server F)
      → d.fd ≡ c.fd
      → Owned base (beside pre c) connections s
      → Owned base pre (d ∷ connections) s
  take_back pre c d connections s e o = record {
    kernel = λ x. rw e (omega (arith, o.kernel x));
    watched = λ x. rw e (omega (arith, o.watched x));
  }

  -- What is done with one connection: it is closed, or kept with its descriptor.
  abbrev Served :
      (pre : ℕ → ℕ)
      → ConnectionInfo
      → List ConnectionInfo
      → Option ConnectionInfo
      → Server F
      → Type 0
  Served pre c rest none t = Owned base pre rest t
  Served pre c rest (some d) t = (d.fd ≡ c.fd) × Owned base (beside pre c) rest t

  serve_if-Served :
      (pre : ℕ → ℕ) (ready : Bool) (e : Exchange) (c : ConnectionInfo) (rest : List ConnectionInfo)
      (s : Server F)
      → Owned base pre (c ∷ rest) s
      → (kept : Option ConnectionInfo) × (t : Server F) × (serve_if F ready e c s ≡ some (kept, t))
        × Served pre c rest kept t
  unfolding serve
  serve_if-Served pre false e c rest s o =
      (some c, s, refl, (refl, set_aside pre c rest s s refl refl refl o))
  serve_if-Served pre true e c rest s o = elim (Bool-cases (ltb 0 (pos_part e.received))) [
    | inl h ↦
        let t : Server F = record s {
          stats = count_exchange F (pos_part e.received) e.sent s.stats;
        } in
        (
          some (exchanged F (pos_part e.received) e.sent c),
          t,
          rw h refl,
          (refl, set_aside pre c rest s t refl refl refl o),
        )
    | inr h ↦ elim (Bool-cases (must_close F e)) [
      | inl m ↦
          let (t, closed, after) = hang_up-Owned base pre c rest s o in
          (none, t, rw (h, m, closed) refl, after)
      | inr m ↦ (some c, s, rw (h, m) refl, (refl, set_aside pre c rest s s refl refl refl o))
    ]
  ]

  -- What the loop does from the connections `rest` on.
  abbrev Continued :
      (pre : ℕ → ℕ) → (ℕ → Bool) → (ℕ → Exchange) → List ConnectionInfo → Server F → Type 0
  Continued pre read_fds answers rest t =
      (cs : List ConnectionInfo) × (u : Server F) × (handle_client_data F read_fds answers (rest, t)
        ≡ some (cs, u))
      × Owned base pre cs u
      × (length cs ≤ length rest)

  after_one :
      (pre : ℕ → ℕ) (read_fds : ℕ → Bool) (answers : ℕ → Exchange) (c : ConnectionInfo)
      (rest : List ConnectionInfo) (kept : Option ConnectionInfo) (t : Server F)
      → Served pre c rest kept t
      → ((pre' : ℕ → ℕ) → Owned base pre' rest t → Continued pre' read_fds answers rest t)
      → (cs : List ConnectionInfo) × (u : Server F) × (handle_client_data F read_fds answers
            (rest, t)
          ≡ some (cs, u))
        × Owned base pre (keep F kept cs) u
        × (length (keep F kept cs) ≤ suc (length rest))
  after_one pre read_fds answers c rest none t v go =
      let (cs, u, e, o, l) = go pre v in (cs, u, e, o, omega (arith, l))
  after_one pre read_fds answers c rest (some d) t (same, v) go =
      let (cs, u, e, o, l) = go (beside pre c) v in
      (cs, u, e, take_back pre c d cs u same o, omega (arith, l))

  pub handle_client_data-Owned :
      (pre : ℕ → ℕ) (read_fds : ℕ → Bool) (answers : ℕ → Exchange)
      (connections : List ConnectionInfo) (s : Server F)
      → Owned base pre connections s
      → (cs : List ConnectionInfo) × (t : Server F) × (handle_client_data F read_fds answers
            (connections, s)
          ≡ some (cs, t))
        × Owned base pre cs t
        × (length cs ≤ length connections)
  unfolding handle_client_data
  handle_client_data-Owned pre read_fds answers [] s o = ([], s, refl, o, omega arith)
  handle_client_data-Owned pre read_fds answers (c ∷ rest) s o =
      let (kept, t, e, v) = serve_if-Served pre (read_fds c.fd) (answers c.fd) c rest s o in
      let (cs, u, e', o', l) =
        after_one pre read_fds answers c rest kept t v
          (λ pre' w. handle_client_data-Owned pre' read_fds answers rest t w) in
      (keep F kept cs, u, rw (e, e') refl, o', l)
