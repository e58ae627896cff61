-- ===== src/Network/Plan.antt =====
-- src/network_io_benchmarker_cpp.cpp: the servers and clients that the tests of `NetworkBenchmarker`
-- start, on Linux.
pub mod Ports
use context_switching.Prelude.{
  ℕ, zero, suc, ◌+◌, ◌*◌, ◌%◌, ◌^◌, List, [], ◌∷◌, ◌++◌, Option, none, some, Bool, true, false,
  if◌then◌else◌, ltb, ◌>>=◌,
}
use context_switching.Prelude.Int.{ℤ, pos, negsuc, pos_part}
use context_switching.Network.Client.{Protocol, tcp, udp}
use context_switching.Network.CommandLine.{
  TestType, throughput, latency, buffer_size, multiplexer, connection_scaling, all, Config,
}
use context_switching.Network.Report.{kb, mb}

pub data Loop : Type 0 where
  run_select run_epoll : Loop

-- One server and its client. With a duration the stop flag is set after so many seconds, without one when
-- the client has ended.
pub record Session : Type 0 where
  pub protocol : Protocol
  pub loop : Loop
  pub port : ℕ
  pub message_size : ℕ
  pub num_messages : ℕ
  pub buffer_size : Option ℕ
  pub duration : Option ℕ

-- `htons` cuts the port to 16 bits, for the server and for the client.
abbrev pub htons : ℕ → ℕ
htons port = port % 2 ^ 16

abbrev pub throughput_session : ℕ → Protocol → ℕ → ℕ → Session
throughput_session port protocol message_size duration = record {
  protocol = protocol;
  loop = run_select;
  port = htons port;
  message_size = message_size;
  num_messages = duration * 1000;
  buffer_size = none;
  duration = some duration;
}

-- `none` is a number of messages that overflows `int`.
unfoldable pub run_throughput_test : ℕ → Protocol → ℕ → ℕ → Option (List Session)
run_throughput_test port protocol message_size duration =
    if ltb (duration * 1000) (2 ^ 31)
    then some (throughput_session port protocol message_size duration ∷ [])
    else none

abbrev pub buffer_sizes : List ℕ
buffer_sizes = 8 * kb ∷ 16 * kb ∷ 32 * kb ∷ 64 * kb ∷ 128 * kb ∷ 256 * kb ∷ 512 * kb ∷ 1 * mb ∷ []

-- The sessions from the port on, one for each size.
unfoldable pub buffer_sessions : Protocol → ℕ → List ℕ → List Session
buffer_sessions protocol port [] = []
buffer_sessions protocol port (size ∷ sizes) =
    record {
      protocol = protocol;
      loop = run_select;
      port = htons port;
      message_size = 64 * kb;
      num_messages = 1000;
      buffer_size = some size;
      duration = none;
    }
    ∷ buffer_sessions protocol (port + 1) sizes

abbrev pub run_buffer_size_test : ℕ → Protocol → List Session
unfolding buffer_sessions
run_buffer_size_test port protocol = buffer_sessions protocol port buffer_sizes

abbrev pub multiplexer_session : ℕ → Loop → Session
multiplexer_session port loop = record {
  protocol = tcp;
  loop = loop;
  port = htons port;
  message_size = 1024;
  num_messages = 5000;
  buffer_size = none;
  duration = none;
}

abbrev pub run_multiplexer_test : ℕ → List Session
run_multiplexer_test port =
    multiplexer_session port run_select ∷ multiplexer_session port run_epoll ∷ []

unfoldable pub run_all_tests : ℕ → Option (List Session)
unfolding run_throughput_test buffer_sessions
run_all_tests port = do
  first ← run_throughput_test port tcp 1024 10
  second ← run_throughput_test port udp 1024 10
  some (
      first
      ++ (run_buffer_size_test port tcp
          ++ (second ++ (run_buffer_size_test port udp ++ run_multiplexer_test port))))

-- The test that `main` chooses.
unfoldable pub plan : ℕ → Protocol → ℕ → ℕ → TestType → Option (List Session)
unfolding run_throughput_test buffer_sessions run_all_tests
plan port protocol message_size duration throughput =
    run_throughput_test port protocol message_size duration
plan port protocol message_size duration latency = run_throughput_test port protocol 64 duration
plan port protocol message_size duration buffer_size = some (run_buffer_size_test port protocol)
plan port tcp message_size duration multiplexer = some (run_multiplexer_test port)
plan port udp message_size duration multiplexer = some []
plan port protocol message_size duration connection_scaling = some []
plan port protocol message_size duration all = run_all_tests port

abbrev pub main_plan : Config → Option (List Session)
unfolding plan
main_plan c = plan (pos_part c.port) c.protocol c.message_size (pos_part c.duration) c.test_type
