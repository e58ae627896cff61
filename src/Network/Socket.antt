-- ===== src/Network/Socket.antt =====
-- src/network_io_benchmarker_cpp.cpp: `SocketWrapper`, the owner of a descriptor, and the set-up of a
-- listening socket. What the system answers is an input, and the closing of a descriptor that is not
-- open is the result `none`.
use context_switching.Prelude.{
  ℕ, Bool, true, false, ◌&&◌, ◌||◌, not, Option, none, some, if◌then◌else◌, ◌>>=◌,
}
use context_switching.Prelude.Threads.{put}
use context_switching.Network.Client.{Protocol, tcp, udp}

-- The descriptors that are open.
abbrev pub Descriptors : Type 0
Descriptors = ℕ → Bool

unfoldable pub close_fd : ℕ → Descriptors → Option Descriptors
close_fd fd k = if k fd then some (put fd false k) else none

-- A negative `fd_` is `none`.
pub record SocketWrapper : Type 0 where
  pub fd : Option ℕ
  pub owner : Bool

abbrev pub no_socket : SocketWrapper
no_socket = record { fd = none; owner = false }

abbrev pub wrap : ℕ → SocketWrapper
wrap fd = record { fd = some fd; owner = true }

unfoldable pub close : SocketWrapper → Descriptors → Option (SocketWrapper × Descriptors)
unfolding close_fd
close s k = elim s.fd [
  | none ↦ some (s, k)
  | some fd ↦
      if s.owner
      then (close_fd fd k >>= λ after. some (record s { fd = none }, after))
      else some (s, k)
]

-- `~SocketWrapper()`
unfoldable pub destroy : SocketWrapper → Descriptors → Option Descriptors
unfolding close
destroy s k = do (gone, after) ← close s k; some after

-- The new socket, and the one moved from.
abbrev pub move : SocketWrapper → SocketWrapper × SocketWrapper
move other = (other, no_socket)

-- `s = std::move(other)`, for another socket.
unfoldable pub assign :
    SocketWrapper
    → SocketWrapper
    → Descriptors
    → Option (SocketWrapper × SocketWrapper × Descriptors)
unfolding close
assign s other k = do (gone, after) ← close s k; some (other, no_socket, after)

abbrev pub release : SocketWrapper → SocketWrapper × Option ℕ
release s = (record s { owner = false }, s.fd)

abbrev pub is_valid : SocketWrapper → Bool
is_valid s = elim s.fd [ none ↦ false | some fd ↦ true ]

-- `create_tcp` and `create_udp`; `none` is an exception.
abbrev pub create : Option ℕ → Descriptors → Option (SocketWrapper × Descriptors)
create answer k = do fd ← answer; some (wrap fd, put fd true k)

-- Whether `setsockopt` for the address and the buffers, `bind` and `listen` succeed.
pub record ListenAnswers : Type 0 where
  pub socket : Option ℕ
  pub reused : Bool
  pub sized : Bool
  pub bound : Bool
  pub listening : Bool

-- How a function ends: it returns, or it throws; with what is left behind.
pub data Ending {ℓ} (A B : Type ℓ) : Type ℓ where
  returns : A → Ending A B
  throws : B → Ending A B
  undefined : Ending A B

abbrev pub listens : Protocol → Bool → Bool
listens tcp b = b
listens udp b = true

-- The destructor of the socket, where an exception leaves the function.
abbrev pub unwind : SocketWrapper → Descriptors → Ending (SocketWrapper × Descriptors) Descriptors
unfolding destroy
unwind s k = elim (destroy s k) [ none ↦ undefined | some after ↦ throws after ]

-- `create_listen_socket`; `buffered` says whether a buffer size is given.
unfoldable pub create_listen_socket :
    Protocol → Bool → ListenAnswers → Descriptors → Ending (SocketWrapper × Descriptors) Descriptors
unfolding unwind
create_listen_socket p buffered a k = elim a.socket [
  | none ↦ throws k
  | some fd ↦
      if a.reused && (not buffered || a.sized) && a.bound && listens p a.listening
      then returns (wrap fd, put fd true k)
      else unwind (wrap fd) (put fd true k)
]
