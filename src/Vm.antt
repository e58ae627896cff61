-- ===== src/Vm.antt =====
-- src/vm_explorer.cpp: the virtual memory explorer.
pub mod Block
pub mod Access
pub mod Chase
pub mod Explorer
pub mod CommandLine
pub mod Tests
