-- ===== src/Ecc.antt =====
-- The Reed-Solomon code of ftape/lowlevel/ftape-ecc.c.
mod Tables
pub mod Memory
pub mod Parity
pub mod Syndromes
pub mod Inverse
pub mod Correct
pub mod Segment
pub mod Field
pub use Tables.*
