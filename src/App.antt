-- ===== src/App.antt =====
-- src/lib.rs: the configuration's file, reloads, and the run from start-up to tear-down.
pub mod Logging
pub mod Bridge
pub mod Cli
pub mod ConfigFile
pub mod Load
pub mod Service
pub mod InSync
pub mod Run
pub mod Total
mod Tests
