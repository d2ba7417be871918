-- ===== src/Link.antt =====
-- Machine.cpp: the process of the virtual machine and the helper process, joined by two channels of
-- messages and by signals.
pub mod Defs
pub mod Count
pub mod Inv
pub mod Requests
pub mod Moves
pub mod Steps
pub mod Replies
pub mod Sound
pub mod Handler
pub mod Reads
pub mod Covered
pub mod Work
pub mod Finish
pub mod Rounds
pub mod Idle
pub mod Delivery
pub mod Wakeup
