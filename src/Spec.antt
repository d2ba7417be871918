-- ===== src/Spec.antt =====
-- UtilityFunctions.cpp against what the scheduler and the mutexes promise.
pub mod Run
pub mod Schedule
pub mod Kept
pub mod Mutexes
pub mod Replies
pub mod RoundTrip
pub mod Alarm
pub mod Sleep
pub mod Lookup
pub mod Listed
pub mod Rounds
pub mod TryLock
pub mod Contexts
pub mod CommandLine
pub mod Print
pub mod Switch
pub mod Terminated
pub mod Waiters
pub mod Acquire
pub mod Refused
pub mod Answers
pub mod Answered
pub mod Calls
pub mod Created
pub mod Timer
pub mod IoWait
pub mod Files
pub mod Stale
pub mod Written
