-- ===== src/Network/Plan/Ports.antt =====
-- src/network_io_benchmarker_cpp.cpp: the sessions of the tests for the options that `main` lets through.
use context_switching.Prelude.{
  ℕ, ◌+◌, ◌*◌, ◌^◌, ◌≤◌, ◌<◌, ◌≡◌, refl, List, [], ◌∷◌, ◌++◌, Option, some, true, arith, ltb, All,
  All-append, length,
}
use context_switching.Prelude.Int.{pos_part}
use context_switching.Prelude.CommandLine.{Opt, run}
use context_switching.Network.Client.{Protocol, tcp, udp}
use context_switching.Network.CommandLine.{
  TestType, throughput, latency, buffer_size, multiplexer, connection_scaling, all, Config,
  default_config, read_options,
}
use context_switching.Network.CommandLine.Valid.{network_main-IsValid}
use context_switching.Network.Plan.{
  Session, Loop, run_select, run_epoll, throughput_session, multiplexer_session,
  run_throughput_test, buffer_sessions, buffer_sizes, run_buffer_size_test, run_multiplexer_test,
  run_all_tests, plan, main_plan,
}

-- A port that names one, a message that is not empty, and a number of them that `int` holds.
pub record Runs (s : Session) : Type 0 where
  pub named : 0 < s.port
  pub real : s.port < 2 ^ 16
  pub some_bytes : 0 < s.message_size
  pub some_messages : 0 < s.num_messages
  pub int_messages : s.num_messages < 2 ^ 31

throughput_session-Runs :
    (port message_size duration : ℕ) (protocol : Protocol)
    → 0 < port
    → port < 2 ^ 16
    → 0 < message_size
    → 0 < duration
    → duration * 1000 < 2 ^ 31
    → Runs (throughput_session port protocol message_size duration)
throughput_session-Runs port message_size duration protocol p q m d o = record {
  named = omega (arith, p, q);
  real = omega arith;
  some_bytes = m;
  some_messages = omega (arith, d);
  int_messages = o;
}

throughput_test :
    (port message_size duration : ℕ) (protocol : Protocol)
    → duration * 1000 < 2 ^ 31
    → run_throughput_test port protocol message_size duration
      ≡ some (throughput_session port protocol message_size duration ∷ [])
unfolding run_throughput_test
throughput_test port message_size duration protocol o =
    let small : ltb (duration * 1000) (2 ^ 31) ≡ true = ground (arith, o) in rw small refl

buffer-Runs :
    (protocol : Protocol) (port : ℕ) (sizes : List ℕ)
    → 0 < port
    → port + length sizes ≤ 2 ^ 16
    → All Runs (buffer_sessions protocol port sizes)
unfolding buffer_sessions
buffer-Runs protocol port [] p q = tt
buffer-Runs protocol port (size ∷ sizes) p q = (
  record {
    named = omega (arith, p, q);
    real = omega arith;
    some_bytes = omega arith;
    some_messages = omega arith;
    int_messages = omega arith;
  },
  buffer-Runs protocol (port + 1) sizes (omega arith) (omega (arith, q)),
)

multiplexer_session-Runs :
    (port : ℕ) (loop : Loop) → 0 < port → port < 2 ^ 16 → Runs (multiplexer_session port loop)
multiplexer_session-Runs port loop p q = record {
  named = omega (arith, p, q);
  real = omega arith;
  some_bytes = omega arith;
  some_messages = omega arith;
  int_messages = omega arith;
}

multiplexer-Runs : (port : ℕ) → 0 < port → port < 2 ^ 16 → All Runs (run_multiplexer_test port)
multiplexer-Runs port p q = (
  multiplexer_session-Runs port run_select p q,
  (multiplexer_session-Runs port run_epoll p q, tt),
)

-- The sessions of a plan that can be made.
abbrev Planned : Option (List Session) → Type 0
Planned plan = (ss : List Session) × (plan ≡ some ss) × All Runs ss

all-Runs : (port : ℕ) → 0 < port → port + 8 ≤ 2 ^ 16 → Planned (run_all_tests port)
unfolding run_all_tests run_throughput_test
all-Runs port p q =
    let first =
      throughput_session-Runs port 1024 10 tcp p (omega arith) (omega arith) (omega arith)
        (omega arith) in
    let second =
      throughput_session-Runs port 1024 10 udp p (omega arith) (omega arith) (omega arith)
        (omega arith) in
    (
      (throughput_session port tcp 1024 10 ∷ [])
          ++ (run_buffer_size_test port tcp
              ++ ((throughput_session port udp 1024 10 ∷ [])
                  ++ (run_buffer_size_test port udp ++ run_multiplexer_test port))),
      refl,
      (
        first,
        All-append Runs (run_buffer_size_test port tcp)
            (throughput_session port udp 1024 10
              ∷ (run_buffer_size_test port udp ++ run_multiplexer_test port))
            (buffer-Runs tcp port buffer_sizes p q)
            (
              second,
              All-append Runs (run_buffer_size_test port udp) (run_multiplexer_test port)
                  (buffer-Runs udp port buffer_sizes p q) (multiplexer-Runs port p (omega arith)),
            ),
      ),
    )

plan-Runs :
    (port message_size duration : ℕ) (protocol : Protocol) (test : TestType)
    → 0 < port
    → port + 8 ≤ 2 ^ 16
    → 0 < message_size
    → 0 < duration
    → duration * 1000 < 2 ^ 31
    → Planned (plan port protocol message_size duration test)
unfolding plan
plan-Runs port size d protocol throughput p q m n o = (
  throughput_session port protocol size d ∷ [],
  throughput_test port size d protocol o,
  (throughput_session-Runs port size d protocol p (omega arith) m n o, tt),
)
plan-Runs port size d protocol latency p q m n o = (
  throughput_session port protocol 64 d ∷ [],
  throughput_test port 64 d protocol o,
  (throughput_session-Runs port 64 d protocol p (omega arith) (omega arith) n o, tt),
)
plan-Runs port size d protocol buffer_size p q m n o =
    (run_buffer_size_test port protocol, refl, buffer-Runs protocol port buffer_sizes p q)
plan-Runs port size d tcp multiplexer p q m n o =
    (run_multiplexer_test port, refl, multiplexer-Runs port p (omega arith))
plan-Runs port size d udp multiplexer p q m n o = ([], refl, tt)
plan-Runs port size d protocol connection_scaling p q m n o = ([], refl, tt)
plan-Runs port size d protocol all p q m n o = all-Runs port p q

-- Whatever the options that main lets through, with a port up to 65528 and a duration up to 2147483
-- seconds: in every session of the chosen test the port is from 1 to 65535, a message has at least one
-- byte, and the number of messages is positive and an int.
main_plan-Planned :
    (os : List Opt) (c : Config)
    → read_options default_config os ≡ run c
    → pos_part c.port ≤ 65528
    → pos_part c.duration ≤ 2147483
    → Planned (main_plan c)
unfolding main_plan
main_plan-Planned os c e p d =
    let v = network_main-IsValid os c e in
    plan-Runs (pos_part c.port) c.message_size (pos_part c.duration) c.protocol c.test_type
      (omega (arith, v.positive_port)) (omega (arith, p)) (omega (arith, v.some_size))
      (omega (arith, v.positive_duration)) (omega (arith, d))
