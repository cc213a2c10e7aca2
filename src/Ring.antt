-- ===== src/Ring.antt =====
-- ringbuffer.c and ringbuffer.h: a bounded queue of timestamped entries in linked nodes.
pub mod Types
pub mod Buffer
pub mod Chain
pub mod Evict
pub mod Add
pub mod Read
pub mod Destroy
