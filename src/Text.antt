-- ===== src/Text.antt =====
-- util.string.c and util.string.h: helpers for strings.
pub mod Html
pub mod Escaped
pub mod Unescaped
pub mod Width
pub mod Skipped
