-- ===== src/Isr.antt =====
-- The bookkeeping of the interrupt handler, ftape/lowlevel/fdc-isr.c.
pub mod Cause
pub mod Progress
pub mod Verify
pub mod Resume
pub mod Tests
