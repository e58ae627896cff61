-- ===== src/Network/Server.antt =====
-- src/network_io_benchmarker_cpp.cpp: the connections of `NetworkServer`,
-- `handle_new_connections` and `handle_client_data`. The answers of the system are inputs.
pub mod Owned
use native.Mathlib.Decide.{ℕ_discrete}
use context_switching.Prelude.{
  ℕ, ◌+◌, Bool, true, false, ◌&&◌, ◌||◌, not, List, [], ◌∷◌, ◌++◌, Option, none, some,
  if◌then◌else◌, ltb, ◌==◌, length, ◌>>=◌,
}
use context_switching.Prelude.Int.{ℤ, pos, negsuc, pos_part}
use context_switching.Prelude.Words.{u64}
use context_switching.Prelude.Double.{Double}
use context_switching.Prelude.Threads.{put}
use context_switching.Network.Statistics.{NetworkStats, unused, count_sent, count_received}
use context_switching.Network.Client.{Protocol, tcp, udp}
use context_switching.Network.Socket.{
  Descriptors, close_fd, SocketWrapper, ListenAnswers, Ending, returns, throws, undefined,
  create_listen_socket,
}

abbrev pub max_connections : ℕ
max_connections = 10000

-- What an `fd_set` has room for: FD_SET on a larger descriptor is undefined.
abbrev pub fd_setsize : ℕ
fd_setsize = 1024

-- `ConnectionInfo`, with the descriptor that its socket owns.
pub record ConnectionInfo : Type 0 where
  pub fd : ℕ
  pub bytes_sent : ℕ
  pub bytes_received : ℕ

pub record Server (F : Double) : Type 0 where
  pub open_fds : Descriptors
  pub master_fds : ℕ → Bool  -- what `select`, or `epoll`, watches
  pub max_fd : ℕ  -- not used with `epoll`
  pub stats : NetworkStats F

-- The answer to `accept`, and whether the calls that set up the new socket succeed.
pub record Accepted : Type 0 where
  pub client_fd : Option ℕ
  pub nonblocking : Bool
  pub sized : Bool
  pub undelayed : Bool

-- What `recv` returns, whether a failure is EAGAIN or EWOULDBLOCK, and what `send` returns.
pub record Exchange : Type 0 where
  pub received : ℤ
  pub would_block : Bool
  pub sent : ℤ

abbrev undelayed_for : Protocol → Bool → Bool
undelayed_for tcp b = b
undelayed_for udp b = true

abbrev pub is_set_up : Protocol → Bool → Accepted → Bool
is_set_up p buffered a = a.nonblocking && (not buffered || a.sized) && undelayed_for p a.undelayed

abbrev pub higher : ℕ → ℕ → ℕ
higher fd max_fd = if ltb max_fd fd then fd else max_fd

module _ (F : Double) where
  abbrev pub State : Type 0
  State = List ConnectionInfo × Server F

  abbrev pub opened : ℕ → Server F → Server F
  opened fd s = record s { open_fds = put fd true s.open_fds }

  unfoldable pub add_connection : ℕ → State → Ending State State
  add_connection fd (connections, s) =
      if ltb fd fd_setsize
      then returns (
        connections ++ record { fd = fd; bytes_sent = 0; bytes_received = 0 } ∷ [],
        record s { master_fds = put fd true s.master_fds; max_fd = higher fd s.max_fd },
      )
      else undefined

  -- The destructor of a new socket, where an exception leaves the function.
  unfoldable pub drop_socket : ℕ → State → Ending State State
  unfolding close_fd
  drop_socket fd (connections, s) = elim (close_fd fd s.open_fds) [
    | none ↦ undefined
    | some after ↦ throws (connections, record s { open_fds = after })
  ]

  -- Past the limit nothing owns the descriptor that `accept` returns.
  unfoldable pub handle_new_connections : Protocol → Bool → Accepted → State → Ending State State
  unfolding add_connection drop_socket
  handle_new_connections p buffered a (connections, s) = elim a.client_fd [
    | none ↦ returns (connections, s)
    | some fd ↦
        let t = opened fd s in
        if ltb (length connections) max_connections
        then if is_set_up p buffered a
          then add_connection fd (connections, t)
          else drop_socket fd (connections, t)
        else returns (connections, t)
  ]

  unfoldable pub count_exchange : ℕ → ℤ → NetworkStats F → NetworkStats F
  unfolding count_sent count_received
  count_exchange n sent stats =
      let counted = count_received F n stats in
      if ltb 0 (pos_part sent) then count_sent F (pos_part sent) counted else counted

  abbrev exchanged : ℕ → ℤ → ConnectionInfo → ConnectionInfo
  exchanged n sent c = record c {
    bytes_received = u64 (c.bytes_received + n);
    bytes_sent = if ltb 0 (pos_part sent) then u64 (c.bytes_sent + pos_part sent) else c.bytes_sent;
  }

  abbrev pub must_close : Exchange → Bool
  must_close e = elim e.received [ pos n ↦ true | negsuc n ↦ not e.would_block ]

  -- FD_CLR, and the destructor of the connection.
  unfoldable pub hang_up : ℕ → Server F → Option (Server F)
  unfolding close_fd
  hang_up fd s = do
    after ← close_fd fd s.open_fds
    some (record s { open_fds = after; master_fds = put fd false s.master_fds })

  -- One connection that is ready: it is kept, or closed.
  unfoldable pub serve :
      Exchange → ConnectionInfo → Server F → Option (Option ConnectionInfo × Server F)
  unfolding count_exchange hang_up
  serve e c s =
      if ltb 0 (pos_part e.received)
      then some (
        some (exchanged (pos_part e.received) e.sent c),
        record s { stats = count_exchange (pos_part e.received) e.sent s.stats },
      )
      else if must_close e
      then (hang_up c.fd s >>= λ t. some (none, t))
      else some (some c, s)

  abbrev pub keep : Option ConnectionInfo → List ConnectionInfo → List ConnectionInfo
  keep none rest = rest
  keep (some c) rest = c ∷ rest

  abbrev pub serve_if :
      Bool → Exchange → ConnectionInfo → Server F → Option (Option ConnectionInfo × Server F)
  unfolding serve
  serve_if ready e c s = if ready then serve e c s else some (some c, s)

  -- `none` is the closing of a descriptor that is not open.
  unfoldable pub handle_client_data : (ℕ → Bool) → (ℕ → Exchange) → State → Option State
  unfolding serve_if
  handle_client_data ready answers ([], s) = some ([], s)
  handle_client_data ready answers (c ∷ connections, s) = do
    (kept, t) ← serve_if (ready c.fd) (answers c.fd) c s
    (rest, u) ← handle_client_data ready answers (connections, t)
    some (keep kept rest, u)
