-- ===== src/Machine.antt =====
-- Machine.cpp and Machine.h: the signal mask, and file requests to the helper process.
pub mod Data
pub mod Codec
pub mod Signals
pub mod Requests
pub mod Server
pub mod Poll
pub mod RoundTrip
pub mod Contexts
