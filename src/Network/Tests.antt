-- ===== src/Network/Tests.antt =====
-- Concrete runs of the network benchmarker.
use context_switching.Prelude.{
  ℕ, ◌+◌, ◌*◌, ◌≤◌, ◌≡◌, refl, true, false, List, [], ◌∷◌, Option, none, some, ◌==◌, arith, length,
  ltb,
}
use context_switching.Prelude.Int.{pos}
use context_switching.Prelude.Double.{hundredths}
use context_switching.Network.Statistics.{NetworkStats, unused, add_latency_sample}
use context_switching.Network.Client.{
  tcp, Answer, tested, sent, received, Client, new_client, run_client, step, step_in, after_send,
  first_wait, wait_for, after_recv, complete,
}
use context_switching.Network.Client.Counts.{Counted}
use context_switching.Network.Client.Totals.{run_client-Counted}
use context_switching.Network.Client.Ends.{run_client_ends}
use context_switching.Network.Socket.{Descriptors}
use context_switching.Network.Server.{Accepted, Exchange}
use context_switching.Network.Select.{ready, Run, run_select}
use context_switching.Network.Select.Returned.{GivesBack, run_select-GivesBack}
use context_switching.Network.Epoll.{EpollRun, incoming, events, run_epoll}
use context_switching.Network.Epoll.Returned.{Leaves, run_epoll-Leaves}
use context_switching.Network.Echo.{
  System, Steps, here, next, connected, send_buffer, test, send, server_recv, server_send, recv,
}
use context_switching.Network.Echo.Message.{underway, echo_returns_message}

-- One message of two bytes, which come back one by one.
abbrev two_bytes : List (Answer hundredths)
two_bytes =
    tested false 100
    ∷ sent (pos 2) 120
    ∷ received (pos 1) 130
    ∷ received (pos 1) 150
    ∷ tested false 160
    ∷ []

run_client-Counted_example : Counted 2 1 (run_client hundredths tcp 2 (pos 1) 90 170 two_bytes)
run_client-Counted_example = run_client-Counted hundredths tcp 2 1 90 170 two_bytes (omega arith)

run_client_ends_example : length two_bytes ≤ 1 * (2 + 3) + 1
unfolding step_in
run_client_ends_example =
    run_client_ends tcp 2 1 two_bytes (tt, (tt, (omega arith, (omega arith, (tt, tt)))))

-- A server on descriptor 3; a client connects on descriptor 4 and hangs up.
abbrev no_exchange : ℕ → Exchange
no_exchange fd = record { received = pos 0; would_block = false; sent = pos 0 }

abbrev accepted : Option ℕ → Accepted
accepted fd = record { client_fd = fd; nonblocking = true; sized = true; undelayed = true }

abbrev one_client : Run hundredths
one_client = record {
  listen = record { socket = some 3; reused = true; sized = true; bound = true; listening = true };
  nonblocking = true;
  start_time = 100;
  end_time = 200;
  selected =
      ready (λ fd. fd == 3) (accepted (some 4)) no_exchange
      ∷ ready (λ fd. fd == 4) (accepted none) no_exchange
      ∷ [];
}

abbrev standard_fds : Descriptors
standard_fds fd = ltb fd 3

run_select-GivesBack_example :
    GivesBack hundredths standard_fds
      (run_select hundredths tcp false one_client (unused hundredths) standard_fds)
run_select-GivesBack_example =
    run_select-GivesBack hundredths tcp false one_client (unused hundredths) standard_fds
      (refl, omega arith) (λ fd e. ((ground (arith, e), omega arith), λ t h. (tt, λ u k. tt)))
      (omega arith)

-- A message of one byte, on its way to the server and back.
abbrev client_sending : Client hundredths
client_sending =
    step hundredths tcp 1 (pos 1) (new_client hundredths (unused hundredths)) (tested false 0)

abbrev client_waiting : Client hundredths
client_waiting = step hundredths tcp 1 (pos 1) client_sending (sent (pos 1) 5)

abbrev client_done : Client hundredths
client_done = step hundredths tcp 1 (pos 1) client_waiting (received (pos 1) 9)

abbrev on_the_way : List ℕ → List ℕ → List ℕ → System hundredths
on_the_way out held back = record {
  client = client_waiting;
  to_server = out;
  echo = held;
  to_client = back;
  recv_buffer = [];
}

held_run : Steps hundredths false 1 (pos 1) (connected hundredths) (on_the_way [] (0 ∷ []) [])
unfolding step_in after_send first_wait wait_for
held_run =
    next (next (next here (test false 0 refl)) (send 5 refl))
      (server_recv (0 ∷ []) [] refl (λ e. cc) (omega arith) refl)

abbrev echoed : System hundredths
echoed = record (on_the_way [] [] []) { client = client_done; recv_buffer = 0 ∷ [] }

echo_returns_message_example : (echoed.recv_buffer ≡ send_buffer 1) × (underway echoed ≡ [])
unfolding step_in after_send first_wait wait_for after_recv complete
echo_returns_message_example =
    echo_returns_message {num = pos 1} {t = echoed} 0 (next held_run (server_send (λ e. cc))) refl
      (recv 0 (0 ∷ []) [] 9 refl refl (λ e. cc) (omega arith)) refl

abbrev one_latency : NetworkStats hundredths
one_latency = add_latency_sample hundredths 7 (unused hundredths)

-- A server over epoll whose first client cannot be set up.
abbrev refused : EpollRun hundredths
refused = record {
  listen = record { socket = some 3; reused = true; sized = true; bound = true; listening = true };
  nonblocking = true;
  epoll_fd = some 4;
  added = true;
  start_time = 100;
  end_time = 200;
  waited =
      events (
        incoming (
          record { accepted = record (accepted (some 5)) { nonblocking = false }; added = true }
          ∷ [])
        ∷ [])
      ∷ [];
}

run_epoll-Leaves_example :
    Leaves hundredths
      (some 4)
      standard_fds
      (run_epoll hundredths tcp false refused (unused hundredths) standard_fds)
run_epoll-Leaves_example =
    run_epoll-Leaves hundredths tcp false refused (unused hundredths) standard_fds refl
      (λ fd e. ground (arith, e))
      (λ fd epoll_fd e h. (((ground (arith, e, h), λ t k. tt), λ t k. tt), λ t k. tt))
