-- ===== src/Scheduler.antt =====
-- src/scheduler_analyzer_cpp.cpp.
pub mod Stats
pub mod Workload
pub mod Fairness
pub mod Analyzer
mod Tests
pub mod CommandLine
