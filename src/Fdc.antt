-- ===== src/Fdc.antt =====
-- Commands of the floppy disk controller (ftape/lowlevel/fdc-io.c).
pub mod Wait
pub mod Command
pub mod Setup
mod Tests
