-- ===== src/System.antt =====
-- The whole machine: one thread runs, and the others wait in their saved contexts. Module code makes
-- calls, in any order; the timer and the replies of the helper process come in at any time between
-- them.
pub mod Defs
pub mod Sound
