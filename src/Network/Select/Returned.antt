-- ===== src/Network/Select/Returned.antt =====
-- src/network_io_benchmarker_cpp.cpp, `run_select`: the descriptors that it gives back.
use mathlib.Core.Path.{fun_ext}
use context_switching.Prelude.{
  ℕ, ◌+◌, ◌≤◌, ◌≡◌, refl, subst, subst⁻¹, not, ◌&&◌, ◌||◌, Bool, true, false, List, [], ◌∷◌, none,
  some, ltb, length, arith, Bool-cases, Option-cases, inl, inr, ◌⊎◌,
}
use context_switching.Prelude.Double.{Double}
use context_switching.Prelude.Threads.{put}
use context_switching.Network.Statistics.{NetworkStats}
use context_switching.Network.Client.{Protocol}
use context_switching.Network.Socket.{
  Descriptors, close_fd, ListenAnswers, Ending, returns, throws, undefined, create_listen_socket,
  unwind, destroy, close, wrap, listens,
}
use context_switching.Network.Server.{max_connections, fd_setsize, ConnectionInfo, Server, State}
use context_switching.Network.Select.{
  close_all, tear_down, start_server, leave, Run, listen_on, run_select,
}
use context_switching.Network.Server.Owned.{bit, at, held, Owned}
use context_switching.Network.Select.Rounds.{Fresh, AllFresh, IsGood, select_rounds-Good}

pub close_fd_lem : (fd : ℕ) (k : Descriptors) → k fd ≡ true → close_fd fd k ≡ some (put fd false k)
unfolding close_fd
close_fd_lem fd k h = rw h refl

pub close_fd-open : (fd : ℕ) (k : Descriptors) → k fd ≡ false → close_fd fd (put fd true k) ≡ some k
unfolding close_fd
close_fd-open fd k h =
    let back : put fd false (put fd true k) ≡ k = fun_ext (λ x. ground (arith, h)) in
    ground (arith, back)

module _ (F : Double) where
  close_all_lem :
      (rest : ℕ → ℕ) (connections : List ConnectionInfo) (k : Descriptors)
      → ((x : ℕ) → rest x + held x connections ≡ bit (k x))
      → (after : Descriptors) × (close_all F connections k ≡ some after)
        × ((x : ℕ) → rest x ≡ bit (after x))
  unfolding close_all
  close_all_lem rest [] k h = (k, refl, λ x. omega (arith, h x))
  close_all_lem rest (c ∷ connections) k h =
      let here = close_fd_lem c.fd k (ground (arith, h c.fd)) in
      let (after, e, v) =
        close_all_lem rest connections (put c.fd false k) (λ x. ground (arith, h x)) in
      (after, rw (here, e) refl, v)

  pub tear_down_lem :
      (k : Descriptors) (listen_fd : ℕ) (connections : List ConnectionInfo) (s : Server F)
      → Owned (λ x. bit (k x)) (λ x. at x listen_fd) connections s
      → tear_down F listen_fd (connections, s) ≡ some k
  unfolding tear_down
  tear_down_lem k listen_fd connections s o =
      let (after, e, v) =
        close_all_lem (λ x. bit (k x) + at x listen_fd) connections s.open_fds (λ x. o.kernel x) in
      let here = close_fd_lem listen_fd after (ground (arith, v listen_fd)) in
      let back : put listen_fd false after ≡ k = fun_ext (λ x. ground (arith, v x)) in
      rw (e, here, back) refl

  -- The run leaves open what was open before it.
  abbrev pub GivesBack : Descriptors → Ending (NetworkStats F × Descriptors) Descriptors → Type 0
  GivesBack k (returns (stats, after)) = after ≡ k
  GivesBack k (throws after) = after ≡ k
  GivesBack k undefined = ⊥

  leave-GivesBack :
      (k : Descriptors) (listen_fd : ℕ) (start_time end_time : F.Num)
      (r : Ending (State F) (State F))
      → IsGood (λ x. bit (k x)) (λ x. at x listen_fd) r
      → GivesBack k (leave F listen_fd start_time end_time r)
  unfolding leave
  leave-GivesBack k listen_fd start_time end_time (returns (cs, t)) o =
      rw (GivesBack, tear_down_lem k listen_fd cs t o) refl
  leave-GivesBack k listen_fd start_time end_time (throws (cs, t)) o =
      rw (GivesBack, tear_down_lem k listen_fd cs t o) refl
  leave-GivesBack k listen_fd start_time end_time undefined o = absurd o

  pub initial-Owned :
      (listen_fd : ℕ) (k : Descriptors) (stats : NetworkStats F)
      → k listen_fd ≡ false
      → Owned
          (λ x. bit (k x))
          (λ x. at x listen_fd)
          []
          (start_server F listen_fd (put listen_fd true k) stats).1
  initial-Owned listen_fd k stats free = record {
    kernel = λ x. ground (arith, free);
    watched = λ x. ground arith;
  }

  listen_on-GivesBack :
      (p : Protocol) (buffered : Bool) (r : Run F) (stats : NetworkStats F) (listen_fd : ℕ)
      (k : Descriptors)
      → Fresh (some listen_fd) k
      → AllFresh p buffered listen_fd r.selected
          (start_server F listen_fd (put listen_fd true k) stats)
      → length r.selected ≤ max_connections
      → GivesBack k (listen_on F p buffered r stats listen_fd (put listen_fd true k))
  unfolding listen_on
  listen_on-GivesBack p buffered r stats listen_fd k (free, small) fresh few =
      let below : ltb listen_fd fd_setsize ≡ true = ground (arith, small) in
      let all =
        select_rounds-Good (λ x. bit (k x)) (λ x. at x listen_fd) p buffered listen_fd r.selected []
          (start_server F listen_fd (put listen_fd true k) stats).1 fresh
          (initial-Owned listen_fd k stats free) (omega (arith, few)) in
      elim (Bool-cases r.nonblocking) [
        | inl h ↦ rw (h, below) (leave-GivesBack k listen_fd r.start_time r.end_time _ all)
        | inr h ↦ rw (GivesBack, h, close_fd-open listen_fd k free) refl
      ]

pub unwind-open :
    (fd : ℕ) (k : Descriptors) → k fd ≡ false → unwind (wrap fd) (put fd true k) ≡ throws k
unfolding destroy close
unwind-open fd k free = rw (unwind, close_fd-open fd k free) refl

pub create_listen_none :
    (p : Protocol) (buffered : Bool) (a : ListenAnswers) (k : Descriptors)
    → a.socket ≡ none
    → create_listen_socket p buffered a k ≡ throws k
unfolding create_listen_socket
create_listen_none p buffered a k e = rw e refl

pub create_listen_some :
    (p : Protocol) (buffered : Bool) (a : ListenAnswers) (k : Descriptors) (fd : ℕ)
    → a.socket ≡ some fd
    → k fd ≡ false
    → (create_listen_socket p buffered a k ≡ returns (wrap fd, put fd true k))
      ⊎ (create_listen_socket p buffered a k ≡ throws k)
unfolding create_listen_socket
create_listen_some p buffered a k fd e free =
    elim (Bool-cases (a.reused && (not buffered || a.sized) && a.bound && listens p a.listening)) [
      | inl h ↦ inl (rw (e, h) refl)
      | inr h ↦ inr (rw (e, h) (unwind-open fd k free))
    ]

module _ (F : Double) (p : Protocol) (buffered : Bool) (r : Run F) (stats : NetworkStats F)
    (k : Descriptors) where
  run_select_thrown :
      create_listen_socket p buffered r.listen k ≡ throws k
      → run_select F p buffered r stats k ≡ throws k
  unfolding run_select
  run_select_thrown e = rw (run_select, e) refl

  run_select_listening :
      (fd : ℕ)
      → create_listen_socket p buffered r.listen k ≡ returns (wrap fd, put fd true k)
      → run_select F p buffered r stats k ≡ listen_on F p buffered r stats fd (put fd true k)
  unfolding run_select
  run_select_listening fd e = rw (run_select, e) refl

-- `run_select`, whether it returns or throws and whatever the system answers, closes exactly the
-- descriptors that it has opened, each once, if every new descriptor is one that is not open and that an
-- fd_set has room for, and if the loop has at most 10000 rounds.
pub run_select-GivesBack :
    (F : Double) (p : Protocol) (buffered : Bool) (r : Run F) (stats : NetworkStats F)
    (k : Descriptors)
    → Fresh r.listen.socket k
    → ((fd : ℕ)
        → r.listen.socket ≡ some fd
        → AllFresh p buffered fd r.selected (start_server F fd (put fd true k) stats))
    → length r.selected ≤ max_connections
    → GivesBack F k (run_select F p buffered r stats k)
run_select-GivesBack F p buffered r stats k f fresh few = elim (Option-cases r.listen.socket) [
  | inl e ↦
      rw
        (
          GivesBack,
          run_select_thrown F p buffered r stats k (create_listen_none p buffered r.listen k e),
        )
        refl
  | inr (fd, e) ↦
      let first : Fresh (some fd) k = subst (λ o. Fresh o k) e f in
      elim (create_listen_some p buffered r.listen k fd e first.0) [
        | inl c ↦
            subst⁻¹ (GivesBack F k) (run_select_listening F p buffered r stats k fd c)
              (listen_on-GivesBack F p buffered r stats fd k first (fresh fd e) few)
        | inr c ↦ rw (GivesBack, run_select_thrown F p buffered r stats k c) refl
      ]
]
