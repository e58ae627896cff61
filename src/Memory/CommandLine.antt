-- ===== src/Memory/CommandLine.antt =====
-- src/memory_allocator_benchmarker.cpp: the options of `main`, and the tests that it then runs.
use Prim.Native.String.{String}
use context_switching.Prelude.{ℕ, List, ◌==◌, if◌then◌else◌}
use context_switching.Prelude.Int.{ℤ, pos}
use context_switching.Prelude.CommandLine.{
  Opt, Outcome, run, exit, stoi, stoul, reading, same_text, getopt_loop,
}
use context_switching.Memory.Pattern.{
  AllocationPattern, sequential, random, exponential, bimodal, realistic,
}

pub data TestType : Type 0 where
  speed fragmentation scalability containers custom_allocators all : TestType

pub record Config : Type 0 where
  pub test_type : TestType
  pub pattern : AllocationPattern
  pub min_size : ℕ
  pub max_size : ℕ
  pub num_iterations : ℤ

abbrev pub default_config : Config
default_config = record {
  test_type = all;
  pattern = realistic;
  min_size = 8;
  max_size = 8192;
  num_iterations = pos 1000;
}

-- A name that is none of these changes nothing.
read_test_type : String → TestType → TestType
read_test_type arg old =
    if same_text arg "speed"
    then speed
    else if same_text arg "frag"
    then fragmentation
    else if same_text arg "scale"
    then scalability
    else if same_text arg "container"
    then containers
    else if same_text arg "custom"
    then custom_allocators
    else if same_text arg "all"
    then all
    else old

read_pattern : String → AllocationPattern → AllocationPattern
read_pattern arg old =
    if same_text arg "seq"
    then sequential
    else if same_text arg "rand"
    then random
    else if same_text arg "exp"
    then exponential
    else if same_text arg "bimodal"
    then bimodal
    else if same_text arg "real"
    then realistic
    else old

-- What one option does to the configuration.
pub read_option : Config → Opt → Outcome Config
unfolding read_test_type read_pattern
read_option c o =
    if o.opt == b't'
    then run (record c { test_type = read_test_type o.optarg c.test_type })
    else if o.opt == b'p'
    then run (record c { pattern = read_pattern o.optarg c.pattern })
    else if o.opt == b's'
    then reading (stoul o.optarg) (λ n. run (record c { min_size = n }))
    else if o.opt == b'S'
    then reading (stoul o.optarg) (λ n. run (record c { max_size = n }))
    else if o.opt == b'n'
    then reading (stoi o.optarg) (λ n. run (record c { num_iterations = n }))
    else if o.opt == b'h'
    then exit 0
    else exit 1

unfoldable pub read_options : Config → List Opt → Outcome Config
unfolding read_option
read_options = getopt_loop read_option
