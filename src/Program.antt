-- ===== src/Program.antt =====
-- VirtualMachine.cpp, UtilityFunctions.cpp and Machine.cpp together: the threads and the helper process.
pub mod Defs
pub mod Followed
pub mod Traced
pub mod Beside
pub mod Registered
pub mod Awaited
pub mod Due
pub mod Answered
pub mod Sound
