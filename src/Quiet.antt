-- ===== src/Quiet.antt =====
-- UtilityFunctions.cpp and VirtualMachine.cpp: what the calls do to the traffic of requests.
pub mod Run
pub mod Talk
pub mod Schedule
pub mod Locks
pub mod Threads
pub mod Calls
pub mod Files
pub mod Exec
pub mod Carried
