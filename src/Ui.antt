-- ===== src/Ui.antt =====
-- src/ui: how the user is asked.
pub mod Pinentry
pub mod Interface
pub mod Reading
pub mod Dialogue
pub mod Replies
pub mod Launch
pub mod Descriptors
pub mod Cli
pub mod PinentryChild
pub mod Debug
pub mod Pwd
pub mod PwdTest
pub mod Lines
