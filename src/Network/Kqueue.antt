-- ===== src/Network/Kqueue.antt =====
-- src/network_io_benchmarker_cpp.cpp: `NetworkServer::run_kqueue`, which does with the events of a kqueue
-- what `run_epoll` does with those of an epoll descriptor, but for the filter of an event.
use context_switching.Prelude.{ℕ, Bool, true, false, List, [], map, Option}
use context_switching.Prelude.Double.{Double}
use context_switching.Network.Statistics.{NetworkStats}
use context_switching.Network.Client.{Protocol}
use context_switching.Network.Socket.{Descriptors, ListenAnswers, Ending}
use context_switching.Network.Epoll.{
  Event, incoming, readable, Waited, interrupted, failed, events, EpollRun, run_epoll,
}

-- An event, and whether its filter is EVFILT_READ.
pub record Kevent : Type 0 where
  pub event : Event
  pub is_read : Bool

-- On a descriptor other than the listening one, an event with another filter reads nothing.
filtered : Bool → Event → Event
filtered is_read (incoming accepts) = incoming accepts
filtered true (readable fd es) = readable fd es
filtered false (readable fd es) = readable fd []

pub data Polled : Type 0 where
  interrupted_poll failed_poll : Polled
  polled : List Kevent → Polled

waited_for : Polled → Waited
unfolding filtered
waited_for interrupted_poll = interrupted
waited_for failed_poll = failed
waited_for (polled es) = events (map (λ e. filtered e.is_read e.event) es)

module _ (F : Double) where
  -- The answers of a whole run, those to `kqueue` and to the `kevent` that adds the listening socket among
  -- them.
  pub record KqueueRun : Type 0 where
    pub listen : ListenAnswers
    pub nonblocking : Bool
    pub kq : Option ℕ
    pub added : Bool
    pub start_time : F.Num
    pub end_time : F.Num
    pub polls : List Polled

  as_epoll : KqueueRun → EpollRun F
  unfolding waited_for
  as_epoll r = record {
    listen = r.listen;
    nonblocking = r.nonblocking;
    epoll_fd = r.kq;
    added = r.added;
    start_time = r.start_time;
    end_time = r.end_time;
    waited = map waited_for r.polls;
  }

  pub run_kqueue :
      Protocol
      → Bool
      → KqueueRun
      → NetworkStats F
      → Descriptors
      → Ending (NetworkStats F × Descriptors) Descriptors
  unfolding as_epoll
  run_kqueue p buffered r stats k = run_epoll F p buffered (as_epoll r) stats k
