-- ===== src/Socks.antt =====
-- socks.c and socks.h
pub mod Types
pub mod Init
pub mod Event
pub mod Rounds
pub mod Settled
pub mod Split
pub mod Reads
pub mod Transcript
pub mod Opened
pub mod Traces
pub mod Config
pub mod Protocol
pub mod Ready
