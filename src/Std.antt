-- ===== src/Std.antt =====
-- The parts of Go's standard library that the program calls, as functions on byte strings.
pub mod Strings
pub mod Errors
pub mod Strconv
pub mod Http
