-- ===== src/Network/CommandLine/Valid.antt =====
-- src/network_io_benchmarker_cpp.cpp: the configurations that `main` lets through.
use context_switching.Prelude.{◌≡◌, ◌≢◌, List, arith}
use context_switching.Prelude.Int.{pos, ◌≤ℤ◌}
use context_switching.Prelude.CommandLine.{Opt, run, getopt_loop-keeps}
use context_switching.Network.CommandLine.{
  connection_scaling, Config, default_config, read_option, read_options, set_message_size,
}

pub record IsValid (c : Config) : Type 0 where
  pub positive_port : pos 1 ≤ℤ c.port
  pub bounded_port : c.port ≤ℤ pos 65535
  pub some_size : c.message_size ≢ 0
  pub positive_messages : pos 1 ≤ℤ c.num_messages
  pub positive_duration : pos 1 ≤ℤ c.duration
  pub positive_threads : pos 1 ≤ℤ c.num_threads
  pub another_test : c.test_type ≢ connection_scaling

read_option-IsValid : (c d : Config) (o : Opt) → IsValid c → read_option c o ≡ run d → IsValid d
unfolding read_option set_message_size
read_option-IsValid c d o v e = ground arith

-- Whatever the options, the benchmarker runs only with a port from 1 to 65535, a message size other than
-- 0, and at least one message, one second and one thread, and never the connection scaling test.
pub network_main-IsValid :
    (os : List Opt) (c : Config) → read_options default_config os ≡ run c → IsValid c
unfolding read_options
network_main-IsValid os c e =
    getopt_loop-keeps IsValid read_option read_option-IsValid os default_config c
      (record {
        positive_port = omega arith;
        bounded_port = omega arith;
        some_size = omega arith;
        positive_messages = omega arith;
        positive_duration = omega arith;
        positive_threads = omega arith;
        another_test = λ e. cc;
      })
      e
