-- ===== src/Network/Epoll.antt =====
-- src/network_io_benchmarker_cpp.cpp: `NetworkServer::run_epoll`. The answers of the system are inputs,
-- and a list of answers to `accept` or to `recv` ends where the call would block.
pub mod Rounds
pub mod Returned
use context_switching.Prelude.{
  ℕ, Bool, true, false, List, [], ◌∷◌, ◌++◌, Option, none, some, if◌then◌else◌, ltb, ◌==◌, ◌>>=◌,
}
use context_switching.Prelude.Int.{pos_part}
use context_switching.Prelude.Double.{Double}
use context_switching.Prelude.Threads.{put}
use context_switching.Network.Statistics.{NetworkStats}
use context_switching.Network.Client.{Protocol}
use context_switching.Network.Socket.{
  Descriptors, close_fd, ListenAnswers, Ending, returns, throws, undefined, create_listen_socket,
}
use context_switching.Network.Server.{
  ConnectionInfo, Server, Accepted, Exchange, is_set_up, State, opened, drop_socket, count_exchange,
  must_close, hang_up,
}
use context_switching.Network.Select.{tear_down, and_then, start_server}

-- One `accept`, the set-up of the new socket, and whether `epoll_ctl` adds it.
pub record Incoming : Type 0 where
  pub accepted : Accepted
  pub added : Bool

pub data Event : Type 0 where
  incoming : List Incoming → Event  -- on the listening socket
  readable : ℕ → List Exchange → Event  -- on another descriptor

-- What `epoll_wait` answers: EINTR, another failure, or events.
pub data Waited : Type 0 where
  interrupted failed : Waited
  events : List Event → Waited

-- `connections.find(fd)` finds one.
abbrev pub is_connected : ℕ → List ConnectionInfo → Bool
is_connected fd [] = false
is_connected fd (c ∷ cs) = if fd == c.fd then true else is_connected fd cs

-- `connections.erase(it)`
abbrev pub erase : ℕ → List ConnectionInfo → List ConnectionInfo
erase fd [] = []
erase fd (c ∷ cs) = if fd == c.fd then cs else c ∷ erase fd cs

module _ (F : Double) where
  -- `connections[client_fd] = …`, for a descriptor that is no key.
  abbrev pub add_watched : ℕ → State F → State F
  add_watched fd (connections, s) = (
    record { fd = fd; bytes_sent = 0; bytes_received = 0 } ∷ connections,
    record s { master_fds = put fd true s.master_fds },
  )

  -- The new socket is not watched, and destroyed.
  unfoldable pub reject : ℕ → State F → Ending (State F) (State F)
  unfolding close_fd
  reject fd (connections, s) = elim (close_fd fd s.open_fds) [
    | none ↦ undefined
    | some after ↦ returns (connections, record s { open_fds = after })
  ]

  unfoldable pub accept_one : Protocol → Bool → Incoming → State F → Ending (State F) (State F)
  unfolding drop_socket reject
  accept_one p buffered a (connections, s) = elim a.accepted.client_fd [
    | none ↦ returns (connections, s)
    | some fd ↦
        let t = opened F fd s in
        if is_set_up p buffered a.accepted
        then if a.added
          then returns (add_watched fd (connections, t))
          else reject fd (connections, t)
        else drop_socket F fd (connections, t)
  ]

  unfoldable pub accept_all : Protocol → Bool → List Incoming → State F → Ending (State F) (State F)
  unfolding accept_one
  accept_all p buffered [] s = returns s
  accept_all p buffered (a ∷ as_well) s =
      and_then F (accept_one p buffered a s) (accept_all p buffered as_well)

  -- The loop of `recv`, and whether the connection is to be closed.
  pub exchange_all : List Exchange → NetworkStats F → NetworkStats F × Bool
  unfolding count_exchange
  exchange_all [] stats = (stats, false)
  exchange_all (e ∷ es) stats =
      let rest = exchange_all es (count_exchange F (pos_part e.received) e.sent stats) in
      if ltb 0 (pos_part e.received) then rest else (stats, must_close F e)

  abbrev pub checked : List ConnectionInfo → Option (Server F) → Ending (State F) (State F)
  checked connections none = undefined
  checked connections (some s) = returns (connections, s)

  abbrev pub close_if : Bool → ℕ → State F → Ending (State F) (State F)
  unfolding hang_up
  close_if false fd s = returns s
  close_if true fd (connections, s) = checked (erase fd connections) (hang_up F fd s)

  unfoldable pub serve_all : ℕ → List Exchange → State F → Ending (State F) (State F)
  unfolding exchange_all close_if
  serve_all fd es (connections, s) =
      let (stats, closes) = exchange_all es s.stats in
      close_if closes fd (connections, record s { stats = stats })

  -- A descriptor that is no key is passed over.
  unfoldable pub read_from : ℕ → List Exchange → State F → Ending (State F) (State F)
  unfolding serve_all
  read_from fd es (connections, s) =
      if is_connected fd connections
      then serve_all fd es (connections, s)
      else returns (connections, s)

  unfoldable pub handle_event : Protocol → Bool → Event → State F → Ending (State F) (State F)
  unfolding accept_all read_from
  handle_event p buffered (incoming accepts) s = accept_all p buffered accepts s
  handle_event p buffered (readable fd es) s = read_from fd es s

  unfoldable pub handle_events : Protocol → Bool → List Event → State F → Ending (State F) (State F)
  unfolding handle_event
  handle_events p buffered [] s = returns s
  handle_events p buffered (e ∷ es) s =
      and_then F (handle_event p buffered e s) (handle_events p buffered es)

  -- The rounds of the loop; a failure of `epoll_wait` ends it as the stop flag does.
  unfoldable pub epoll_rounds : Protocol → Bool → List Waited → State F → Ending (State F) (State F)
  unfolding handle_events
  epoll_rounds p buffered [] s = returns s
  epoll_rounds p buffered (interrupted ∷ rounds) s = epoll_rounds p buffered rounds s
  epoll_rounds p buffered (failed ∷ rounds) s = returns s
  epoll_rounds p buffered (events es ∷ rounds) s =
      and_then F (handle_events p buffered es s) (epoll_rounds p buffered rounds)

  -- What is left of `run_epoll`: the time, `close(epoll_fd)`, and the destructors. An exception leaves
  -- the epoll descriptor open.
  abbrev pub leave_epoll :
      ℕ
      → ℕ
      → F.Num
      → F.Num
      → Ending (State F) (State F)
      → Ending (NetworkStats F × Descriptors) Descriptors
  unfolding tear_down close_fd
  leave_epoll listen_fd epoll_fd start_time end_time (returns (connections, s)) =
      elim (close_fd epoll_fd s.open_fds >>= λ after.
      tear_down F listen_fd (connections, record s { open_fds = after })) [
        | none ↦ undefined
        | some k ↦ returns (record s.stats { total_time = F.sub end_time start_time }, k)
      ]
  leave_epoll listen_fd epoll_fd start_time end_time (throws s) = elim (tear_down F listen_fd s) [
    | none ↦ undefined
    | some k ↦ throws k
  ]
  leave_epoll listen_fd epoll_fd start_time end_time undefined = undefined

  -- The answers of a whole run.
  pub record EpollRun : Type 0 where
    pub listen : ListenAnswers
    pub nonblocking : Bool
    pub epoll_fd : Option ℕ
    pub added : Bool
    pub start_time : F.Num
    pub end_time : F.Num
    pub waited : List Waited

  abbrev close_listening : ℕ → Descriptors → Ending (NetworkStats F × Descriptors) Descriptors
  unfolding close_fd
  close_listening listen_fd k = elim (close_fd listen_fd k) [
    | none ↦ undefined
    | some after ↦ throws after
  ]

  -- Where `epoll_ctl` fails, the epoll descriptor is closed before the exception.
  unfoldable pub watch_on :
      Protocol
      → Bool
      → EpollRun
      → NetworkStats F
      → ℕ
      → ℕ
      → Descriptors
      → Ending (NetworkStats F × Descriptors) Descriptors
  unfolding leave_epoll epoll_rounds close_listening close_fd
  watch_on p buffered r stats listen_fd epoll_fd k =
      if r.added
      then leave_epoll listen_fd epoll_fd r.start_time r.end_time
          (epoll_rounds p buffered r.waited (start_server F listen_fd k stats))
      else elim (close_fd epoll_fd k) [
        | none ↦ undefined
        | some after ↦ close_listening listen_fd after
      ]

  unfoldable pub epoll_on :
      Protocol
      → Bool
      → EpollRun
      → NetworkStats F
      → ℕ
      → Descriptors
      → Ending (NetworkStats F × Descriptors) Descriptors
  unfolding watch_on close_listening
  epoll_on p buffered r stats listen_fd k =
      if r.nonblocking
      then elim r.epoll_fd [
        | none ↦ close_listening listen_fd k
        | some fd ↦ watch_on p buffered r stats listen_fd fd (put fd true k)
      ]
      else close_listening listen_fd k

  unfoldable pub run_epoll :
      Protocol
      → Bool
      → EpollRun
      → NetworkStats F
      → Descriptors
      → Ending (NetworkStats F × Descriptors) Descriptors
  unfolding epoll_on create_listen_socket
  run_epoll p buffered r stats k = elim (create_listen_socket p buffered r.listen k) [
    | returns (socket, after) ↦ elim socket.fd [
      | none ↦ undefined
      | some fd ↦ epoll_on p buffered r stats fd after
    ]
    | throws after ↦ throws after
    | undefined ↦ undefined
  ]
