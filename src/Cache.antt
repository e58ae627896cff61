-- ===== src/Cache.antt =====
-- src/cache_analyzer_cpp.cpp.
pub mod Metrics
pub mod Access
pub mod Chase
pub mod Sharing
pub mod Hierarchy
pub mod CommandLine
pub mod Tests
