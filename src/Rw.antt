-- ===== src/Rw.antt =====
-- Sector clusters and buffer setup, ftape/lowlevel/ftape-rw.c.
pub mod Cluster
pub mod Ends
pub mod Location
pub mod Recover
pub mod Setup
pub mod Tests
