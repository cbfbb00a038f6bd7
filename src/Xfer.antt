-- ===== src/Xfer.antt =====
-- What the interrupt handler of the controller does (ftape/lowlevel/fdc-isr.c).
pub mod State
pub mod Continue
pub mod Format
pub mod Head
pub mod Busy
pub mod Irq
mod Tests
