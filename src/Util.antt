-- ===== src/Util.antt =====
-- src/util.c.
pub mod MemBuffer
pub mod Quote
