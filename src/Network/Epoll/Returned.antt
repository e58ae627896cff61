-- ===== src/Network/Epoll/Returned.antt =====
-- src/network_io_benchmarker_cpp.cpp, `run_epoll`: the descriptors that it gives back, and the one that an
-- exception leaves open.
use mathlib.Core.Path.{fun_ext}
use context_switching.Prelude.{
  ℕ, ◌≡◌, ◌⊎◌, inl, inr, refl, subst, subst⁻¹, Bool, true, false, List, [], Option, some, arith,
  Bool-cases, Option-cases,
}
use context_switching.Prelude.Double.{Double}
use context_switching.Prelude.Threads.{put}
use context_switching.Network.Statistics.{NetworkStats}
use context_switching.Network.Client.{Protocol}
use context_switching.Network.Socket.{
  Descriptors, Ending, returns, throws, undefined, create_listen_socket, wrap,
}
use context_switching.Network.Server.{ConnectionInfo, Server, State}
use context_switching.Network.Server.Owned.{bit, at, Owned}
use context_switching.Network.Select.{start_server}
use context_switching.Network.Select.Rounds.{IsGood}
use context_switching.Network.Select.Returned.{
  close_fd_lem, close_fd-open, tear_down_lem, initial-Owned, create_listen_none, create_listen_some,
}
use context_switching.Network.Epoll.{
  EpollRun, leave_epoll, close_listening, watch_on, epoll_on, run_epoll,
}
use context_switching.Network.Epoll.Rounds.{IsFree, FreshRounds, epoll_rounds-Good}

module _ (F : Double) where
  -- A run that returns leaves open what was open before it; one that throws may leave open, besides, the
  -- descriptor `epoll_fd`, but none that it was not given.
  abbrev pub Leaves :
      Option ℕ → Descriptors → Ending (NetworkStats F × Descriptors) Descriptors → Type 0
  Leaves epoll_fd k (returns (stats, after)) = after ≡ k
  Leaves epoll_fd k (throws after) =
      (after ≡ k) ⊎ ((fd : ℕ) × (epoll_fd ≡ some fd) × (after ≡ put fd true k))
  Leaves epoll_fd k undefined = ⊥

  returned-Owned :
      (k : Descriptors) (listen_fd epoll_fd : ℕ) (connections : List ConnectionInfo) (s : Server F)
      → k epoll_fd ≡ false
      → Owned (λ x. bit (put epoll_fd true k x)) (λ x. at x listen_fd) connections s
      → Owned
          (λ x. bit (k x))
          (λ x. at x listen_fd)
          connections
          (record s { open_fds = put epoll_fd false s.open_fds })
  returned-Owned k listen_fd epoll_fd connections s free o = record {
    kernel = λ x. ground (arith, o.kernel x, o.kernel epoll_fd, free);
    watched = o.watched;
  }

  leave_epoll-Leaves :
      (k : Descriptors) (listen_fd epoll_fd : ℕ) (start_time end_time : F.Num)
      (r : Ending (State F) (State F))
      → k epoll_fd ≡ false
      → IsGood (λ x. bit (put epoll_fd true k x)) (λ x. at x listen_fd) r
      → Leaves (some epoll_fd) k (leave_epoll F listen_fd epoll_fd start_time end_time r)
  unfolding leave_epoll
  leave_epoll-Leaves k listen_fd epoll_fd start_time end_time (returns (cs, s)) free o =
      let here = close_fd_lem epoll_fd s.open_fds (ground (arith, o.kernel epoll_fd)) in
      let rest =
        tear_down_lem F k listen_fd cs (record s { open_fds = put epoll_fd false s.open_fds })
          (returned-Owned k listen_fd epoll_fd cs s free o) in
      rw (Leaves, here, rest) refl
  leave_epoll-Leaves k listen_fd epoll_fd start_time end_time (throws (cs, s)) free o =
      rw (Leaves, tear_down_lem F (put epoll_fd true k) listen_fd cs s o)
        (inr (epoll_fd, refl, refl))
  leave_epoll-Leaves k listen_fd epoll_fd start_time end_time undefined free o = absurd o

  close_listening_lem :
      (k : Descriptors) (listen_fd : ℕ)
      → k listen_fd ≡ false
      → close_listening F listen_fd (put listen_fd true k) ≡ throws k
  unfolding close_listening
  close_listening_lem k listen_fd free = rw (close_listening, close_fd-open listen_fd k free) refl

  watch_on-Leaves :
      (p : Protocol) (buffered : Bool) (r : EpollRun F) (stats : NetworkStats F)
      (listen_fd epoll_fd : ℕ) (k : Descriptors)
      → k listen_fd ≡ false
      → put listen_fd true k epoll_fd ≡ false
      → FreshRounds p buffered r.waited
          (start_server F listen_fd (put epoll_fd true (put listen_fd true k)) stats)
      → Leaves (some epoll_fd) k (
          watch_on F p buffered r stats listen_fd epoll_fd
            (put epoll_fd true (put listen_fd true k)))
  unfolding watch_on
  watch_on-Leaves p buffered r stats listen_fd epoll_fd k free free' fresh =
      let unopened : k epoll_fd ≡ false = ground (arith, free') in
      let swapped : put epoll_fd true (put listen_fd true k)
          ≡ put listen_fd true (put epoll_fd true k) =
        fun_ext (λ x. ground arith) in
      let all =
        epoll_rounds-Good p buffered (λ x. bit (put epoll_fd true k x)) (λ x. at x listen_fd)
          r.waited [] (start_server F listen_fd (put epoll_fd true (put listen_fd true k)) stats).1
          fresh
          (subst⁻¹
            (λ fds.
              Owned (λ x. bit (put epoll_fd true k x)) (λ x. at x listen_fd) []
                (start_server F listen_fd fds stats).1)
            swapped
            (initial-Owned F listen_fd (put epoll_fd true k) stats
              (ground (arith, free, free')))) in
      elim (Bool-cases r.added) [
        | inl h ↦
            rw h (leave_epoll-Leaves k listen_fd epoll_fd r.start_time r.end_time _ unopened all)
        | inr h ↦
            rw
              (
                Leaves,
                h,
                close_fd-open epoll_fd (put listen_fd true k) free',
                close_listening_lem k listen_fd free,
              )
              (inl refl)
      ]

  epoll_on-Leaves :
      (p : Protocol) (buffered : Bool) (r : EpollRun F) (stats : NetworkStats F) (listen_fd : ℕ)
      (k : Descriptors)
      → k listen_fd ≡ false
      → IsFree r.epoll_fd (put listen_fd true k)
      → ((epoll_fd : ℕ)
          → r.epoll_fd ≡ some epoll_fd
          → FreshRounds p buffered r.waited
              (start_server F listen_fd (put epoll_fd true (put listen_fd true k)) stats))
      → Leaves r.epoll_fd k (epoll_on F p buffered r stats listen_fd (put listen_fd true k))
  unfolding epoll_on
  epoll_on-Leaves p buffered r stats listen_fd k free free' fresh =
      let closed = close_listening_lem k listen_fd free in
      elim (Bool-cases r.nonblocking) [
        | inr h ↦ rw (Leaves, h, closed) (inl refl)
        | inl h ↦ elim (Option-cases r.epoll_fd) [
          | inl e ↦ rw (Leaves, h, e, closed) (inl refl)
          | inr (fd, e) ↦
              rw (h, e)
                (watch_on-Leaves p buffered r stats listen_fd fd k free
                  (subst (λ o. IsFree o (put listen_fd true k)) e free') (fresh fd e))
        ]
      ]

module _ (F : Double) (p : Protocol) (buffered : Bool) (r : EpollRun F) (stats : NetworkStats F)
    (k : Descriptors) where
  run_epoll_thrown :
      create_listen_socket p buffered r.listen k ≡ throws k
      → run_epoll F p buffered r stats k ≡ throws k
  unfolding run_epoll
  run_epoll_thrown e = rw (run_epoll, e) refl

  run_epoll_listening :
      (fd : ℕ)
      → create_listen_socket p buffered r.listen k ≡ returns (wrap fd, put fd true k)
      → run_epoll F p buffered r stats k ≡ epoll_on F p buffered r stats fd (put fd true k)
  unfolding run_epoll
  run_epoll_listening fd e = rw (run_epoll, e) refl

  -- `run_epoll`, whatever the system answers, closes each descriptor at most once. If it returns, the
  -- descriptors are open that were open before; if it throws, these and perhaps the epoll descriptor. The
  -- descriptors that it is given are to be ones that are not open.
  pub run_epoll-Leaves :
      IsFree r.listen.socket k
      → ((fd : ℕ) → r.listen.socket ≡ some fd → IsFree r.epoll_fd (put fd true k))
      → ((fd epoll_fd : ℕ)
          → r.listen.socket ≡ some fd
          → r.epoll_fd ≡ some epoll_fd
          → FreshRounds p buffered r.waited
              (start_server F fd (put epoll_fd true (put fd true k)) stats))
      → Leaves F r.epoll_fd k (run_epoll F p buffered r stats k)
  run_epoll-Leaves free free' fresh = elim (Option-cases r.listen.socket) [
    | inl e ↦ rw (Leaves, run_epoll_thrown (create_listen_none p buffered r.listen k e)) (inl refl)
    | inr (fd, e) ↦
        let first = subst (λ o. IsFree o k) e free in
        elim (create_listen_some p buffered r.listen k fd e first) [
          | inl c ↦ subst⁻¹ (Leaves F r.epoll_fd k) (run_epoll_listening fd c) (
              epoll_on-Leaves F p buffered r stats fd k first (free' fd e)
                (λ epoll_fd h. fresh fd epoll_fd e h))
          | inr c ↦ rw (Leaves, run_epoll_thrown c) (inl refl)
        ]
  ]
