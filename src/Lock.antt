-- ===== src/Lock.antt =====
-- src/lock_visualizer_cpp.cpp.
pub mod Statistics
pub mod Workload
pub mod Analysis
pub mod CommandLine
pub mod Tests
pub mod Spin
pub mod ReadWrite
pub mod Adaptive
