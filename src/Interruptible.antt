-- ===== src/Interruptible.antt =====
-- src/interruptible.c.
pub mod Store
pub mod Buckets
pub mod Chain
pub mod Table
pub mod Guards
pub mod Objects
