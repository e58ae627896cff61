-- ===== src/ContextSwitch/CommandLine.antt =====
-- src/context_switch_cpp.cpp: the options of `main`.
use context_switching.Prelude.{Bool, true, false, List, ◌==◌, if◌then◌else◌}
use context_switching.Prelude.Int.{ℤ, pos, ltb_ℤ}
use context_switching.Prelude.CommandLine.{Opt, Outcome, run, exit, stoi, reading, getopt_loop}

pub record Config : Type 0 where
  pub iterations : ℤ
  pub verbose : Bool

abbrev pub default_config : Config
default_config = record { iterations = pos 1000; verbose = false }

set_iterations : Config → ℤ → Outcome Config
set_iterations c n = if ltb_ℤ n (pos 1) then exit 1 else run (record c { iterations = n })

pub read_option : Config → Opt → Outcome Config
unfolding set_iterations
read_option c o =
    if o.opt == b'n'
    then reading (stoi o.optarg) (set_iterations c)
    else if o.opt == b'v'
    then run (record c { verbose = true })
    else if o.opt == b'h'
    then exit 0
    else exit 1

unfoldable pub read_options : Config → List Opt → Outcome Config
unfolding read_option
read_options = getopt_loop read_option
