-- ===== src/ContextSwitch.antt =====
-- src/context_switch_cpp.cpp.
pub mod Statistics
pub mod PingPong
pub mod Pipes
pub mod Resources
pub mod Benchmark
pub mod CommandLine
mod Tests
