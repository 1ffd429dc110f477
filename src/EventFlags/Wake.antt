-- ===== src/EventFlags/Wake.antt =====
-- The threads that wait at, set and clear event flags of src/common/emulated_event_flags.inl, however
-- they interleave, and interrupts that set flags between any two accesses of the thread that has the
-- guard: no wakeup is lost.
pub mod Slots
pub mod System
pub mod Sound
pub mod Steps
