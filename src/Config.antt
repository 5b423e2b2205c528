-- ===== src/Config.antt =====
-- src/config: the rules for system calls, the signature and the password.
pub mod Hex
pub mod FileConfig
pub mod Rules
pub mod Throws
pub mod Password
pub mod Interface
