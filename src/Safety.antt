-- ===== src/Safety.antt =====
-- UtilityFunctions.cpp and VirtualMachine.cpp: the invariant of the store, and safety.
pub mod Inv
pub mod Safe
pub mod Steps
pub mod Wait
pub mod Entries
pub mod Mutexes
pub mod Release
pub mod Locks
pub mod Threads
pub mod Timer
pub mod Reply
pub mod Create
pub mod Calls
pub mod Boot
pub mod Schedule
