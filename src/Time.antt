-- ===== src/Time.antt =====
-- kernel/time: the timers.
pub mod Timer
pub mod Lapic
pub mod Hpet
pub mod Real
