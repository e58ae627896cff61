-- ===== src/Network/Epoll/Rounds.antt =====
-- src/network_io_benchmarker_cpp.cpp, `run_epoll`: the descriptors in the rounds of its loop.
use context_switching.Prelude.{
  ℕ, ◌+◌, ◌≡◌, refl, Bool, true, false, List, [], ◌∷◌, Option, none, some, arith, Bool-cases, inl,
  inr,
}
use context_switching.Prelude.Double.{Double}
use context_switching.Prelude.Threads.{put}
use context_switching.Network.Client.{Protocol}
use context_switching.Network.Socket.{Descriptors, close_fd, Ending, returns, throws, undefined}
use context_switching.Network.Server.{
  ConnectionInfo, Server, Exchange, is_set_up, State, opened, drop_socket,
}
use context_switching.Network.Server.Owned.{at, held, Owned, hang_up-Owned}
use context_switching.Network.Select.{and_then}
use context_switching.Network.Select.Rounds.{IsGood, drop_socket_lem}
use context_switching.Network.Epoll.{
  Incoming, Event, incoming, readable, Waited, interrupted, failed, events, is_connected, erase,
  add_watched, reject, accept_one, accept_all, exchange_all, close_if, serve_all, read_from,
  handle_event, handle_events, epoll_rounds,
}

-- The descriptor that a call returns, if any, is not open.
abbrev pub IsFree : Option ℕ → Descriptors → Type 0
IsFree none k = Unit
IsFree (some fd) k = k fd ≡ false

-- Of two steps, both leave the descriptors owned.
and_then-Good :
    {F : Double} {base pre : ℕ → ℕ} (first : Ending (State F) (State F))
    (rest : State F → Ending (State F) (State F))
    → IsGood base pre first
    → ((cs : List ConnectionInfo) (t : Server F)
        → first ≡ returns (cs, t)
        → Owned base pre cs t
        → IsGood base pre (rest (cs, t)))
    → IsGood base pre (and_then F first rest)
and_then-Good (returns (cs, t)) rest o go = go cs t refl o
and_then-Good (throws (cs, t)) rest o go = o
and_then-Good undefined rest o go = absurd o

held-erase :
    (x fd : ℕ) (cs : List ConnectionInfo)
    → is_connected fd cs ≡ true
    → held x cs ≡ at x fd + held x (erase fd cs)
held-erase x fd [] h = cc
held-erase x fd (c ∷ cs) h = ground (arith, h, held-erase x fd cs)

module _ {F : Double} where
  reject_lem :
      (fd : ℕ) (connections : List ConnectionInfo) (s : Server F)
      → reject F fd (connections, opened F fd s)
        ≡ returns (connections, record s { open_fds = put fd false (put fd true s.open_fds) })
  unfolding reject close_fd
  reject_lem fd connections s = ground arith

  -- A new socket that an exception destroys.
  dropped :
      (base pre : ℕ → ℕ) (fd : ℕ) (connections : List ConnectionInfo) (s : Server F)
      → Owned base pre connections s
      → s.open_fds fd ≡ false
      → IsGood base pre (drop_socket F fd (connections, opened F fd s))
  dropped base pre fd connections s o free =
      rw (drop_socket_lem fd connections s)
        (record { kernel = λ x. ground (arith, o.kernel x, free); watched = o.watched })

module _ {F : Double} (p : Protocol) (buffered : Bool) where
  abbrev pub FreshAccepts : List Incoming → State F → Type 0
  FreshAccepts [] s = Unit
  FreshAccepts (a ∷ accepts) s =
      IsFree a.accepted.client_fd s.1.open_fds
      × ((t : State F) → accept_one F p buffered a s ≡ returns t → FreshAccepts accepts t)

  abbrev pub FreshEvent : Event → State F → Type 0
  FreshEvent (incoming accepts) s = FreshAccepts accepts s
  FreshEvent (readable fd es) s = Unit

  abbrev pub FreshEvents : List Event → State F → Type 0
  FreshEvents [] s = Unit
  FreshEvents (e ∷ es) s =
      FreshEvent e s
      × ((t : State F) → handle_event F p buffered e s ≡ returns t → FreshEvents es t)

  -- Each `accept` of a run returns a descriptor that is not open.
  abbrev pub FreshRounds : List Waited → State F → Type 0
  FreshRounds [] s = Unit
  FreshRounds (interrupted ∷ rounds) s = FreshRounds rounds s
  FreshRounds (failed ∷ rounds) s = Unit
  FreshRounds (events es ∷ rounds) s =
      FreshEvents es s
      × ((t : State F) → handle_events F p buffered es s ≡ returns t → FreshRounds rounds t)

  module _ (base pre : ℕ → ℕ) where
    reject-Good :
        (fd : ℕ) (connections : List ConnectionInfo) (s : Server F)
        → Owned base pre connections s
        → s.open_fds fd ≡ false
        → IsGood base pre (reject F fd (connections, opened F fd s))
    reject-Good fd connections s o free =
        rw (reject_lem fd connections s)
          (record { kernel = λ x. ground (arith, o.kernel x, free); watched = o.watched })

    add_watched-Owned :
        (fd : ℕ) (connections : List ConnectionInfo) (s : Server F)
        → Owned base pre connections s
        → s.open_fds fd ≡ false
        → IsGood base pre (returns (add_watched F fd (connections, opened F fd s)))
    add_watched-Owned fd connections s o free = record {
      kernel = λ x. ground (arith, o.kernel x, free);
      watched = λ x. ground (arith, o.watched x, o.kernel x, free);
    }

    accept_one-Good :
        (a : Incoming) (answer : Option ℕ) (connections : List ConnectionInfo) (s : Server F)
        → a.accepted.client_fd ≡ answer
        → IsFree answer s.open_fds
        → Owned base pre connections s
        → IsGood base pre (accept_one F p buffered a (connections, s))
    unfolding accept_one
    accept_one-Good a none connections s e f o = rw e o
    accept_one-Good a (some fd) connections s e f o =
        elim (Bool-cases (is_set_up p buffered a.accepted)) [
          | inl h ↦ elim (Bool-cases a.added) [
            | inl k ↦ rw (e, h, k) (add_watched-Owned fd connections s o f)
            | inr k ↦ rw (e, h, k) (reject-Good fd connections s o f)
          ]
          | inr h ↦ rw (e, h) (dropped base pre fd connections s o f)
        ]

    accept_all-Good :
        (accepts : List Incoming) (connections : List ConnectionInfo) (s : Server F)
        → FreshAccepts accepts (connections, s)
        → Owned base pre connections s
        → IsGood base pre (accept_all F p buffered accepts (connections, s))
    unfolding accept_all
    accept_all-Good [] connections s f o = o
    accept_all-Good (a ∷ accepts) connections s (f, more) o =
        and_then-Good _ _ (accept_one-Good a a.accepted.client_fd connections s refl f o)
          (λ cs t e v. accept_all-Good accepts cs t (more (cs, t) e) v)

    close_if-Good :
        (closes : Bool) (fd : ℕ) (connections : List ConnectionInfo) (s : Server F)
        → is_connected fd connections ≡ true
        → Owned base pre connections s
        → IsGood base pre (close_if F closes fd (connections, s))
    unfolding close_if
    close_if-Good false fd connections s h o = o
    close_if-Good true fd connections s h o =
        let c : ConnectionInfo = record { fd = fd; bytes_sent = 0; bytes_received = 0 } in
        let (t, e, v) = hang_up-Owned base pre c (erase fd connections) s (record {
          kernel = λ x. omega (arith, o.kernel x, held-erase x fd connections h);
          watched = λ x. omega (arith, o.watched x, held-erase x fd connections h);
        }) in
        rw e v

    read_from-Good :
        (fd : ℕ) (es : List Exchange) (connections : List ConnectionInfo) (s : Server F)
        → Owned base pre connections s
        → IsGood base pre (read_from F fd es (connections, s))
    unfolding read_from serve_all
    read_from-Good fd es connections s o = elim (Bool-cases (is_connected fd connections)) [
      | inl h ↦ rw h (
          close_if-Good (exchange_all F es s.stats).1 fd connections
            (record s { stats = (exchange_all F es s.stats).0 }) h
            (record { kernel = o.kernel; watched = o.watched }))
      | inr h ↦ rw h o
    ]

    handle_event-Good :
        (e : Event) (connections : List ConnectionInfo) (s : Server F)
        → FreshEvent e (connections, s)
        → Owned base pre connections s
        → IsGood base pre (handle_event F p buffered e (connections, s))
    unfolding handle_event
    handle_event-Good (incoming accepts) connections s f o =
        accept_all-Good accepts connections s f o
    handle_event-Good (readable fd es) connections s f o = read_from-Good fd es connections s o

    handle_events-Good :
        (es : List Event) (connections : List ConnectionInfo) (s : Server F)
        → FreshEvents es (connections, s)
        → Owned base pre connections s
        → IsGood base pre (handle_events F p buffered es (connections, s))
    unfolding handle_events
    handle_events-Good [] connections s f o = o
    handle_events-Good (e ∷ es) connections s (f, more) o =
        and_then-Good _ _ (handle_event-Good e connections s f o)
          (λ cs t h v. handle_events-Good es cs t (more (cs, t) h) v)

    pub epoll_rounds-Good :
        (rounds : List Waited) (connections : List ConnectionInfo) (s : Server F)
        → FreshRounds rounds (connections, s)
        → Owned base pre connections s
        → IsGood base pre (epoll_rounds F p buffered rounds (connections, s))
    unfolding epoll_rounds
    epoll_rounds-Good [] connections s f o = o
    epoll_rounds-Good (interrupted ∷ rounds) connections s f o =
        epoll_rounds-Good rounds connections s f o
    epoll_rounds-Good (failed ∷ rounds) connections s f o = o
    epoll_rounds-Good (events es ∷ rounds) connections s (f, more) o =
        and_then-Good _ _ (handle_events-Good es connections s f o)
          (λ cs t h v. epoll_rounds-Good rounds cs t (more (cs, t) h) v)
