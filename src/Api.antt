-- ===== src/Api.antt =====
-- VirtualMachine.cpp: the calls of the virtual machine.
pub mod Call
pub mod Mutexes
pub mod Files
pub mod Threads
pub mod Start
pub mod Main
pub mod Print
