-- ===== src/Zft.antt =====
-- The zftape layer: positions on the tape, in bytes and in segments.
pub mod Label
pub mod Overshoot
pub mod Position
pub mod Recover
pub mod Verify
pub mod Write
