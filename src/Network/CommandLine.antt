-- ===== src/Network/CommandLine.antt =====
-- src/network_io_benchmarker_cpp.cpp: the options of `main`.
pub mod Valid
use Prim.Native.String.{String}
use context_switching.Prelude.{ℕ, Bool, true, false, List, ◌||◌, ◌==◌, if◌then◌else◌}
use context_switching.Prelude.Int.{ℤ, pos, ltb_ℤ}
use context_switching.Prelude.CommandLine.{
  Opt, Outcome, run, exit, uncaught, stoi, reading, same_text, getopt_loop, to_size,
}
use context_switching.Network.Client.{Protocol, tcp, udp}

-- No option chooses `connection_scaling`.
pub data TestType : Type 0 where
  throughput latency buffer_size multiplexer connection_scaling all : TestType

pub record Config : Type 0 where
  pub server_addr : String
  pub port : ℤ
  pub protocol : Protocol
  pub test_type : TestType
  pub message_size : ℕ
  pub num_messages : ℤ
  pub duration : ℤ
  pub num_threads : ℤ
  pub verbose : Bool

abbrev pub default_config : Config
default_config = record {
  server_addr = "127.0.0.1";
  port = pos 12345;
  protocol = tcp;
  test_type = all;
  message_size = 1024;
  num_messages = pos 10000;
  duration = pos 10;
  num_threads = pos 1;
  verbose = false;
}

set_port : Config → ℤ → Outcome Config
set_port c n =
    if ltb_ℤ n (pos 1) || ltb_ℤ (pos 65535) n then exit 1 else run (record c { port = n })

set_protocol : Config → String → Outcome Config
set_protocol c arg =
    if same_text arg "tcp"
    then run (record c { protocol = tcp })
    else if same_text arg "udp"
    then run (record c { protocol = udp })
    else exit 1

set_test_type : Config → String → Outcome Config
set_test_type c arg =
    if same_text arg "throughput"
    then run (record c { test_type = throughput })
    else if same_text arg "latency"
    then run (record c { test_type = latency })
    else if same_text arg "buffer"
    then run (record c { test_type = buffer_size })
    else if same_text arg "multiplexer"
    then run (record c { test_type = multiplexer })
    else if same_text arg "all"
    then run (record c { test_type = all })
    else exit 1

-- The value is unsigned when it is compared with 0.
set_message_size : Config → ℤ → Outcome Config
set_message_size c n =
    if to_size n == 0 then exit 1 else run (record c { message_size = to_size n })

set_num_messages : Config → ℤ → Outcome Config
set_num_messages c n = if ltb_ℤ n (pos 1) then exit 1 else run (record c { num_messages = n })

set_duration : Config → ℤ → Outcome Config
set_duration c n = if ltb_ℤ n (pos 1) then exit 1 else run (record c { duration = n })

set_num_threads : Config → ℤ → Outcome Config
set_num_threads c n = if ltb_ℤ n (pos 1) then exit 1 else run (record c { num_threads = n })

pub read_option : Config → Opt → Outcome Config
unfolding set_port set_protocol set_test_type set_message_size set_num_messages set_duration
    set_num_threads
read_option c o =
    if o.opt == b'a'
    then run (record c { server_addr = o.optarg })
    else if o.opt == b'p'
    then reading (stoi o.optarg) (set_port c)
    else if o.opt == b'P'
    then set_protocol c o.optarg
    else if o.opt == b't'
    then set_test_type c o.optarg
    else if o.opt == b's'
    then reading (stoi o.optarg) (set_message_size c)
    else if o.opt == b'n'
    then reading (stoi o.optarg) (set_num_messages c)
    else if o.opt == b'd'
    then reading (stoi o.optarg) (set_duration c)
    else if o.opt == b'T'
    then reading (stoi o.optarg) (set_num_threads c)
    else if o.opt == b'v'
    then run (record c { verbose = true })
    else if o.opt == b'h'
    then exit 0
    else exit 1

unfoldable pub read_options : Config → List Opt → Outcome Config
unfolding read_option
read_options = getopt_loop read_option
