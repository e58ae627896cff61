-- ===== src/Network.antt =====
-- src/network_io_benchmarker_cpp.cpp: the network benchmarker.
pub mod Statistics
pub mod Client
pub mod Socket
pub mod Server
pub mod Select
pub mod Epoll
pub mod Kqueue
pub mod Echo
pub mod CommandLine
pub mod Report
pub mod Plan
mod Tests
