-- ===== src/Lib.antt =====
-- A verification library for the C++ tools of the operating system performance toolkit.
--
-- Each tool is one program under src/ with a `main` of its own: it reads options, runs a benchmark
-- (most of them with several threads), collects statistics and prints them. The tools share no code.
-- The library models what they compute and how their threads interact; it does not model printing,
-- and it takes from the machine what the programs take from it: the readings of clocks, the draws
-- of random engines and the failures of allocations are inputs, and in the step relations the steps
-- of the threads interleave in any order.
--
-- Files:
-- * ContextSwitch models src/context_switch_cpp.cpp. Statistics: `ContextSwitchStats::calculate` and
--   `print_histogram`. PingPong: both threads of `measure_with_threads` as a step relation over
--   `turn`, `done`, the time stamps and the clock, which may go back unless a flag says that it is steady;
--   each access to an atomic is one step. Pipes: parent and child of `measure_with_pipes` in the same way,
--   over the bytes in the pipes, with flags that say whose calls may fail. Resources:
--   `PipeRAII` and `SharedMemory`. Benchmark: what the measurements take and give back,
--   `run_all_tests` and the fastest method. CommandLine: the options of `main`.
-- * Scheduler models src/scheduler_analyzer_cpp.cpp. Stats: `ThreadStats`. Workload: the loops of
--   `WorkloadGenerator`. Fairness: `FairnessAnalyzer`. Analyzer: `SchedulerAnalyzer` from the
--   constructor to `print_summary`, with `ResourceMonitor`. CommandLine: the options of `main`.
-- * Lock models src/lock_visualizer_cpp.cpp. Statistics: `ThreadStatistics`. Spin: the workers of
--   `LockContentionAnalyzer<SpinLock>` as a step relation. ReadWrite: readers and writers under a
--   `std::shared_mutex`, and Adaptive: `AdaptiveMutex`, in the same way. Analysis: `analyze_results` and `provide_recommendations`. Workload: the choice of an
--   operation. CommandLine: the options of `main`.
-- * Memory models src/memory_allocator_benchmarker.cpp. Statistics, Pattern: `Statistics` and
--   `PatternGenerator`. Benchmarker: the histograms and `speed_test`. Fragmentation and Scalability:
--   the tests of these names. CommandLine: the options of `main`.
-- * Cache models src/cache_analyzer_cpp.cpp. Metrics: `SystemInfo` and `calculate_estimates`. Access:
--   `execute_pattern`. Chase: `PointerChaseList`. Sharing: the counters of `false_sharing_analysis`
--   and `cache_bouncing_analysis` as a step relation. Hierarchy: the totals of
--   `cache_hierarchy_analysis`. CommandLine: the options of `main`.
-- * Vm models src/vm_explorer.cpp. Block: `MemoryBlock`, with a map of owners as its specification
--   (Owner). Access: the loops of `MemoryAccessor<char>` and `touch_all_pages`. Chase:
--   `pointer_chase`. Explorer: the tests of `VMExplorer`, `run` and `main`, on the blocks and the
--   loops. CommandLine: the options of `main`.
-- * Disk models src/disk_io_analyzer_cpp.cpp. Statistics: `IOStatistics`. Executor:
--   `IOPatternExecutor`. Workers: `run_io_test` and `worker_thread` as a step relation over the
--   barrier and the stop flag, which an exception destroys. Files: `create_test_file`, `get_open_flags` and `format_size`. Metrics:
--   `calculate_aggregate_metrics`. Plan: the runs that each test makes. CommandLine: the options of
--   `main`.
-- * Network models src/network_io_benchmarker_cpp.cpp. Statistics: `NetworkStats`. Client:
--   `NetworkClient::run`, a machine that is given the answers of the system. Socket: `SocketWrapper` and
--   `create_listen_socket`. Server: `handle_new_connections` and `handle_client_data`. Select:
--   `run_select`; Epoll and Kqueue: `run_epoll` and `run_kqueue`. Echo: a client and a server over one TCP connection as a step relation over the bytes
--   under way; a `send` of the server may take any part of its bytes, and a flag says whether one of the
--   client may. Report: `print_statistics` and the tables. Plan: the sessions that each test starts.
--   CommandLine: the options of `main`.
-- * Prelude has what these share: lists, tests and options over the native numbers, machine words,
--   `int`, sorting, percentiles, strides, occurrences in a list, families of threads, `double`, and
--   the reading of a command line (`getopt`, `std::stoi`, `std::stoul`).
--
-- Conventions. A member function is a function from the old state to the new one. `uint64_t` and
-- `size_t` are natural numbers, with the wrap-around written out as `u64`. An access out of bounds,
-- a division by zero or an overflow that the language leaves undefined is the result `none`. `double`
-- is an interface, Double, of the operations that the code calls; theorems that need a law of it name
-- it as a hypothesis (IsOrdered, IsScaling, IsMonotone, IsInterpolating: a strict weak order, cuts to an
-- integer that stay below the size and keep the order, and parts of a range that are from 0 to 1), and the
-- instance `hundredths` has all four. Where a
-- theorem is about the exact value of a formula it takes the instance `exact`, of fractions.
-- `std::sort`, `std::max_element` and `std::min_element` are functions of the library's own with what
-- the standard says of them. `std::exp` is a parameter.
--
-- Bounds and fuel. A loop on a stop flag runs for a number of rounds that is an argument; a loop over
-- a container recurs on it. Where a loop steps by a stride, the model takes fuel, and the size of the
-- data is enough of it. The numbers of threads, rounds and slots are arguments, also where the source
-- has constants.
--
-- Not modelled: the memory orders of the atomics (the accesses of the model are in one order), the
-- readings of timers, tables and progress lines, the C programs of the same names, and the parts that
-- the list of components names, such as `visualization_thread`. Descriptors, mappings and memory that
-- the system gives out are a state of the model, and the system's answers are inputs of it; a theorem
-- that needs it names as a hypothesis that no address or descriptor in use is given out again.
pub mod Prelude
pub mod ContextSwitch
pub mod Scheduler
pub mod Lock
pub mod Memory
pub mod Cache
pub mod Vm
pub mod Disk
pub mod Network
