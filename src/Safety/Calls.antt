-- ===== src/Safety/Calls.antt =====
-- VirtualMachine.cpp: safety of the calls, and the signal mask that they leave.
pub mod Common
pub mod Mutexes
pub mod Threads
pub mod Files
