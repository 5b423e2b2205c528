-- ===== src/Parser.antt =====
-- src/parser: system calls as human-readable text.
pub mod StrType
pub mod ArgType
pub mod SyscallDef
pub mod Call
pub mod Json
pub mod Load
pub mod Given
pub mod Iovecs
pub mod Cut
pub mod Told
pub mod StringTold
pub mod Shown
pub mod SameCall
pub mod SameName
pub mod TwoStrings
pub mod StrText
pub mod Escape
pub mod ArgText
pub mod RawText
pub mod CallText
pub mod CallSpec
pub mod Loaded
pub mod Throws
pub mod Debug
pub mod Printable
pub mod RawInjective
pub mod Interface
