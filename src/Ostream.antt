-- ===== src/Ostream.antt =====
-- The formatted output of the C++ library that src/parser uses.
pub mod Digits
pub mod Number
pub mod Signed
pub mod Defs
pub mod Plain
