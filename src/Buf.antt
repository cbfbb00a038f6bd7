-- ===== src/Buf.antt =====
-- The ring of DMA buffers, ftape/lowlevel/ftape-buffer.c.
pub mod Ring
pub mod Resize
pub mod Tests
