-- ===== src/Acl.antt =====
-- acl.c and acl.h: ordered access rules over network addresses, users and groups.
pub mod Types
pub mod Parse
pub mod Match
pub mod Network
pub mod Decide
pub mod Valid
pub mod Parsed
