-- ===== src/Memory.antt =====
-- src/memory_allocator_benchmarker.cpp.
pub mod Statistics
pub mod Pattern
pub mod Benchmarker
pub mod Fragmentation
pub mod Scalability
pub mod CommandLine
pub mod Tests
