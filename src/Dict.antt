-- ===== src/Dict.antt =====
-- dict.c
pub mod Cycle
pub mod Types
pub mod Hash
pub mod Lookup
pub mod Store
pub mod Access
pub mod View
pub mod Sound
pub mod Counts
pub mod Overwrite
pub mod Commit
pub mod Move
pub mod Grow
pub mod Resize
pub mod Refines
pub mod Reads
pub mod Tidy
pub mod Room
pub mod Add
pub mod Merge
pub mod Number
