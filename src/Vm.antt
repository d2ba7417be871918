-- ===== src/Vm.antt =====
-- UtilityFunctions.cpp and UtilityFunctions.h: threads, mutexes and the thread store.
pub mod Data
pub mod Run
pub mod Tcb
pub mod Schedule
pub mod Wait
pub mod Locks
pub mod Threads
pub mod Timer
pub mod Create
pub mod Entry
pub mod Reply
