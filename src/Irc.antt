-- ===== src/Irc.antt =====
-- irc.format.c and irc.format.h: the colour codes of IRC text.
pub mod Tables
pub mod Parse
pub mod Bounds
pub mod Print
