-- ===== src/Disk.antt =====
-- src/disk_io_analyzer_cpp.cpp: the disk I/O analyzer.
pub mod Statistics
pub mod Executor
pub mod Workers
pub mod Files
pub mod Metrics
pub mod CommandLine
pub mod Plan
pub mod Tests
