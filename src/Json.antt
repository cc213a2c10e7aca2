-- ===== src/Json.antt =====
-- json.c
pub mod Strings
pub mod Printed
pub mod Quoted
pub mod Number
pub mod Parse
pub mod Value
pub mod Keyed
pub mod Shorter
pub mod Room
pub mod Total
pub mod Returned
