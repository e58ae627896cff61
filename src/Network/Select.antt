-- ===== src/Network/Select.antt =====
-- src/network_io_benchmarker_cpp.cpp: `NetworkServer::run_select`. The answers of the system are inputs.
pub mod Rounds
pub mod Returned
use native.Mathlib.Decide.{ℕ_discrete}
use context_switching.Prelude.{
  ℕ, ◌+◌, Bool, true, false, ◌&&◌, ◌||◌, not, List, [], ◌∷◌, ◌++◌, Option, none, some,
  if◌then◌else◌, ltb, ◌==◌, length, ◌>>=◌,
}
use context_switching.Prelude.Int.{ℤ, pos, negsuc, pos_part}
use context_switching.Prelude.Words.{u64}
use context_switching.Prelude.Double.{Double}
use context_switching.Prelude.Threads.{put}
use context_switching.Network.Statistics.{NetworkStats, unused, count_sent, count_received}
use context_switching.Network.Client.{Protocol, tcp, udp}
use context_switching.Network.Socket.{
  Descriptors, close_fd, SocketWrapper, ListenAnswers, Ending, returns, throws, undefined,
  create_listen_socket,
}
use context_switching.Network.Server.{
  fd_setsize, ConnectionInfo, Server, Accepted, Exchange, State, handle_new_connections,
  handle_client_data,
}

module _ (F : Double) where
  -- What one `select` answers: EINTR, another failure, or the descriptors that are ready.
  pub data Selected : Type 0 where
    interrupted failed : Selected
    ready : (ℕ → Bool) → Accepted → (ℕ → Exchange) → Selected

  abbrev checked : Option (State F) → Ending (State F) (State F)
  checked none = undefined
  checked (some s) = returns s

  abbrev pub then_data :
      (ℕ → Bool) → (ℕ → Exchange) → Ending (State F) (State F) → Ending (State F) (State F)
  unfolding handle_client_data
  then_data read_fds answers (returns s) = checked (handle_client_data F read_fds answers s)
  then_data read_fds answers (throws s) = throws s
  then_data read_fds answers undefined = undefined

  -- A round of the loop, past the test of the stop flag.
  unfoldable pub select_round :
      Protocol → Bool → ℕ → Selected → State F → Ending (State F) (State F)
  unfolding handle_new_connections then_data
  select_round p buffered listen_fd interrupted s = returns s
  select_round p buffered listen_fd failed s = throws s
  select_round p buffered listen_fd (ready read_fds a answers) s =
      then_data read_fds answers
        (if read_fds listen_fd then handle_new_connections F p buffered a s else returns s)

  abbrev pub and_then :
      Ending (State F) (State F)
      → (State F → Ending (State F) (State F))
      → Ending (State F) (State F)
  and_then (returns s) f = f s
  and_then (throws s) f = throws s
  and_then undefined f = undefined

  unfoldable pub select_rounds :
      Protocol → Bool → ℕ → List Selected → State F → Ending (State F) (State F)
  unfolding select_round
  select_rounds p buffered listen_fd [] s = returns s
  select_rounds p buffered listen_fd (r ∷ rs) s =
      and_then (select_round p buffered listen_fd r s) (select_rounds p buffered listen_fd rs)

  -- The destructors of the connections, and of the listening socket.
  unfoldable pub close_all : List ConnectionInfo → Descriptors → Option Descriptors
  unfolding close_fd
  close_all [] k = some k
  close_all (c ∷ connections) k = do after ← close_fd c.fd k; close_all connections after

  unfoldable pub tear_down : ℕ → State F → Option Descriptors
  unfolding close_all
  tear_down listen_fd (connections, s) = do
    after ← close_all connections s.open_fds
    close_fd listen_fd after

  abbrev pub start_server : ℕ → Descriptors → NetworkStats F → State F
  start_server listen_fd k stats = (
    [],
    record {
      open_fds = k;
      master_fds = put listen_fd true (λ _. false);
      max_fd = listen_fd;
      stats = stats;
    },
  )

  -- What is left of `run_select`: the time, and the destructors.
  abbrev pub leave :
      ℕ
      → F.Num
      → F.Num
      → Ending (State F) (State F)
      → Ending (NetworkStats F × Descriptors) Descriptors
  unfolding tear_down
  leave listen_fd start_time end_time (returns (connections, s)) =
      elim (tear_down listen_fd (connections, s)) [
        | none ↦ undefined
        | some k ↦ returns (record s.stats { total_time = F.sub end_time start_time }, k)
      ]
  leave listen_fd start_time end_time (throws s) = elim (tear_down listen_fd s) [
    | none ↦ undefined
    | some k ↦ throws k
  ]
  leave listen_fd start_time end_time undefined = undefined

  -- The answers of a whole run.
  pub record Run : Type 0 where
    pub listen : ListenAnswers
    pub nonblocking : Bool
    pub start_time : F.Num
    pub end_time : F.Num
    pub selected : List Selected

  unfoldable pub listen_on :
      Protocol
      → Bool
      → Run
      → NetworkStats F
      → ℕ
      → Descriptors
      → Ending (NetworkStats F × Descriptors) Descriptors
  unfolding leave select_rounds close_fd
  listen_on p buffered r stats listen_fd k =
      if r.nonblocking
      then if ltb listen_fd fd_setsize
        then leave listen_fd r.start_time r.end_time
            (select_rounds p buffered listen_fd r.selected (start_server listen_fd k stats))
        else undefined
      else elim (close_fd listen_fd k) [ none ↦ undefined | some after ↦ throws after ]

  unfoldable pub run_select :
      Protocol
      → Bool
      → Run
      → NetworkStats F
      → Descriptors
      → Ending (NetworkStats F × Descriptors) Descriptors
  unfolding listen_on create_listen_socket
  run_select p buffered r stats k = elim (create_listen_socket p buffered r.listen k) [
    | returns (socket, after) ↦ elim socket.fd [
      | none ↦ undefined
      | some fd ↦ listen_on p buffered r stats fd after
    ]
    | throws after ↦ throws after
    | undefined ↦ undefined
  ]
