-- ===== src/Vm/CommandLine.antt =====
-- src/vm_explorer.cpp: the options of `main`.
use Prim.Native.String.{String}
use context_switching.Prelude.{ℕ, ◌*◌, Bool, true, false, List, ◌==◌, if◌then◌else◌}
use context_switching.Prelude.Int.{ℤ, pos}
use context_switching.Prelude.Words.{u64}
use context_switching.Prelude.CommandLine.{
  Opt, Outcome, Parsed, value, throws, invalid_argument, run, exit, stoi, stoul, reading, same_text,
  getopt_loop,
}

pub data TestType : Type 0 where
  tlb_miss page_fault huge_pages mmap_vs_malloc copy_on_write all : TestType

pub data AccessPattern : Type 0 where
  sequential random stride pointer_chase : AccessPattern

pub record Config : Type 0 where
  pub memory_size : ℕ
  pub test_type : TestType
  pub pattern : AccessPattern
  pub iterations : ℤ
  pub stride_size : ℕ
  pub verbose : Bool

abbrev pub default_config : Config
default_config = record {
  memory_size = 256 * 1024 * 1024;
  test_type = all;
  pattern = sequential;
  iterations = pos 10;
  stride_size = 4096;
  verbose = false;
}

unfoldable pub parse_test_type : String → Parsed TestType
parse_test_type s =
    if same_text s "tlb"
    then value tlb_miss
    else if same_text s "fault"
    then value page_fault
    else if same_text s "huge"
    then value huge_pages
    else if same_text s "mmap"
    then value mmap_vs_malloc
    else if same_text s "cow"
    then value copy_on_write
    else if same_text s "all"
    then value all
    else throws invalid_argument

unfoldable pub parse_pattern : String → Parsed AccessPattern
parse_pattern s =
    if same_text s "seq"
    then value sequential
    else if same_text s "rand"
    then value random
    else if same_text s "stride"
    then value stride
    else if same_text s "chase"
    then value pointer_chase
    else throws invalid_argument

pub read_option : Config → Opt → Outcome Config
unfolding parse_test_type parse_pattern
read_option c o =
    if o.opt == b's'
    then reading (stoul o.optarg) (λ n. run (record c { memory_size = u64 (n * 1024 * 1024) }))
    else if o.opt == b't'
    then reading (parse_test_type o.optarg) (λ t. run (record c { test_type = t }))
    else if o.opt == b'p'
    then reading (parse_pattern o.optarg) (λ p. run (record c { pattern = p }))
    else if o.opt == b'i'
    then reading (stoi o.optarg) (λ n. run (record c { iterations = n }))
    else if o.opt == b'v'
    then run (record c { verbose = true })
    else if o.opt == b'h'
    then exit 0
    else exit 1

unfoldable pub read_options : Config → List Opt → Outcome Config
unfolding read_option
read_options = getopt_loop read_option
