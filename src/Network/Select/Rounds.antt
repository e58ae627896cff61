-- ===== src/Network/Select/Rounds.antt =====
-- src/network_io_benchmarker_cpp.cpp, `run_select`: the rounds of its loop.
use context_switching.Prelude.{
  ℕ, ◌+◌, ◌≤◌, ◌<◌, ◌≡◌, refl, Bool, true, false, List, [], ◌∷◌, Option, none, some, ltb, length,
  arith, Bool-cases, inl, inr,
}
use context_switching.Prelude.Double.{Double}
use context_switching.Prelude.Threads.{put}
use context_switching.Network.Client.{Protocol}
use context_switching.Network.Socket.{Descriptors, close_fd, Ending, returns, throws, undefined}
use context_switching.Network.Server.{
  max_connections, fd_setsize, ConnectionInfo, Server, Accepted, Exchange, is_set_up, State, opened,
  drop_socket, handle_new_connections,
}
use context_switching.Network.Select.{
  Selected, interrupted, failed, ready, then_data, select_round, select_rounds, and_then,
}
use context_switching.Network.Server.Owned.{Owned, add_connection-Owned, handle_client_data-Owned}

-- The descriptor that `accept` returns, if any, is not open, and an `fd_set` has room for it.
abbrev pub Fresh : Option ℕ → Descriptors → Type 0
Fresh none k = Unit
Fresh (some fd) k = (k fd ≡ false) × (fd < fd_setsize)

module _ {F : Double} where
  -- Whether a function returns or throws, the descriptors are owned.
  abbrev pub IsGood : (base pre : ℕ → ℕ) → Ending (State F) (State F) → Type 0
  IsGood base pre (returns (cs, t)) = Owned base pre cs t
  IsGood base pre (throws (cs, t)) = Owned base pre cs t
  IsGood base pre undefined = ⊥

  -- A function that returns leaves at most `n` connections, and one that throws any.
  abbrev Good : (base pre : ℕ → ℕ) → ℕ → Ending (State F) (State F) → Type 0
  Good base pre n (returns (cs, t)) = Owned base pre cs t × (length cs ≤ n)
  Good base pre n (throws (cs, t)) = Owned base pre cs t
  Good base pre n undefined = ⊥

  -- Each `accept` of a round returns a fresh descriptor.
  abbrev pub FreshRound : Selected F → Descriptors → Type 0
  FreshRound (ready read_fds a answers) k = Fresh a.client_fd k
  FreshRound _ k = Unit

  pub drop_socket_lem :
      (fd : ℕ) (connections : List ConnectionInfo) (s : Server F)
      → drop_socket F fd (connections, opened F fd s)
        ≡ throws (connections, record s { open_fds = put fd false (put fd true s.open_fds) })
  unfolding drop_socket close_fd
  drop_socket_lem fd connections s = ground arith

  module _ (base pre : ℕ → ℕ) where
    drop_socket-Good :
        (n fd : ℕ) (connections : List ConnectionInfo) (s : Server F)
        → Owned base pre connections s
        → s.open_fds fd ≡ false
        → Good base pre n (drop_socket F fd (connections, opened F fd s))
    drop_socket-Good n fd connections s o free =
        rw (drop_socket_lem fd connections s)
          (record { kernel = λ x. ground (arith, o.kernel x, free); watched = o.watched })

    handle_new_connections-Good :
        (p : Protocol) (buffered : Bool) (a : Accepted) (answer : Option ℕ)
        (connections : List ConnectionInfo) (s : Server F)
        → a.client_fd ≡ answer
        → Fresh answer s.open_fds
        → Owned base pre connections s
        → length connections < max_connections
        → Good base pre
            (length connections + 1)
            (handle_new_connections F p buffered a (connections, s))
    unfolding handle_new_connections
    handle_new_connections-Good p buffered a none connections s e f o room = rw e (o, omega arith)
    handle_new_connections-Good p buffered a (some fd) connections s e (free, small) o room =
        let below : ltb (length connections) max_connections ≡ true = ground (arith, room) in
        elim (Bool-cases (is_set_up p buffered a)) [
          | inl h ↦
              let (cs, t, added, after, l) =
                add_connection-Owned base pre fd connections s o free small in
              rw (e, below, h, added) (after, omega (arith, l))
          | inr h ↦
              rw (e, below, h) (drop_socket-Good (length connections + 1) fd connections s o free)
        ]

    then_data-Good :
        (n : ℕ) (read_fds : ℕ → Bool) (answers : ℕ → Exchange) (r : Ending (State F) (State F))
        → Good base pre n r
        → Good base pre n (then_data F read_fds answers r)
    unfolding then_data
    then_data-Good n read_fds answers (returns (cs, t)) (o, l) =
        let (ds, u, e, v, m) = handle_client_data-Owned base pre read_fds answers cs t o in
        rw e (v, omega (arith, l, m))
    then_data-Good n read_fds answers (throws (cs, t)) o = o
    then_data-Good n read_fds answers undefined o = absurd o

    select_round-Good :
        (p : Protocol) (buffered : Bool) (listen_fd : ℕ) (r : Selected F)
        (connections : List ConnectionInfo) (s : Server F)
        → FreshRound r s.open_fds
        → Owned base pre connections s
        → length connections < max_connections
        → Good base pre
            (length connections + 1)
            (select_round F p buffered listen_fd r (connections, s))
    unfolding select_round
    select_round-Good p buffered listen_fd interrupted connections s f o room = (o, omega arith)
    select_round-Good p buffered listen_fd failed connections s f o room = o
    select_round-Good p buffered listen_fd (ready read_fds a answers) connections s f o room =
        elim (Bool-cases (read_fds listen_fd)) [
          | inl h ↦ rw h (
              then_data-Good (length connections + 1) read_fds answers _
                (handle_new_connections-Good p buffered a a.client_fd connections s refl f o room))
          | inr h ↦ rw h (
              then_data-Good (length connections + 1) read_fds answers (returns (connections, s))
                (o, omega arith))
        ]

  -- Each `accept` of a run returns a fresh descriptor.
  abbrev pub AllFresh : Protocol → Bool → ℕ → List (Selected F) → State F → Type 0
  AllFresh p buffered listen_fd [] s = Unit
  AllFresh p buffered listen_fd (r ∷ rs) s =
      FreshRound r s.1.open_fds
      × ((t : State F)
          → select_round F p buffered listen_fd r s ≡ returns t
          → AllFresh p buffered listen_fd rs t)

  module _ (base pre : ℕ → ℕ) (p : Protocol) (buffered : Bool) (listen_fd : ℕ) where
    -- A round and what follows it.
    after_round :
        (n : ℕ) (first : Ending (State F) (State F)) (rest : State F → Ending (State F) (State F))
        → Good base pre n first
        → ((cs : List ConnectionInfo) (t : Server F)
            → first ≡ returns (cs, t)
            → Owned base pre cs t
            → length cs ≤ n
            → IsGood base pre (rest (cs, t)))
        → IsGood base pre (and_then F first rest)
    after_round n (returns (cs, t)) rest (o, l) go = go cs t refl o l
    after_round n (throws (cs, t)) rest o go = o
    after_round n undefined rest o go = absurd o

    pub select_rounds-Good :
        (rs : List (Selected F)) (connections : List ConnectionInfo) (s : Server F)
        → AllFresh p buffered listen_fd rs (connections, s)
        → Owned base pre connections s
        → length connections + length rs ≤ max_connections
        → IsGood base pre (select_rounds F p buffered listen_fd rs (connections, s))
    unfolding select_rounds
    select_rounds-Good [] connections s f o l = o
    select_rounds-Good (r ∷ rs) connections s (f, more) o l =
        after_round (length connections + 1) _ _
          (select_round-Good base pre p buffered listen_fd r connections s f o (omega (arith, l)))
          (λ cs t e v m. select_rounds-Good rs cs t (more (cs, t) e) v (omega (arith, l, m)))
