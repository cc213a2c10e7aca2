-- ===== src/Dict/Number.antt =====
-- The typed getters of dict.c. `long` and `long long` have 64 bits, as on LP64 targets. A reader gives
-- `none` where the C function returns its default.
pub mod Real
pub mod Strings
pub mod Getters
pub mod Exact
pub mod Cut
pub mod Checked
pub mod Bounds
pub mod Minus
pub mod Blank
pub mod Reads
