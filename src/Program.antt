-- ===== src/Program.antt =====
-- The programs: src/main.cpp with src/modules.cpp, and src/sign.cpp.
pub mod Options
pub mod ChildProcess
pub mod Key
pub mod Run
pub mod Trust
pub mod Accepting
pub mod Loading
pub mod Exit
pub mod Main
pub mod Sign
pub mod SignVerify
pub mod PinentryOwner
pub mod Monitored
pub mod Keeping
pub mod Closing
