-- ===== src/Macos.antt =====
-- src/platform/macos: the backend for macOS.
pub mod Dns
pub mod Tun
pub mod Detect
pub mod Detected
pub mod Frames
pub mod Polls
pub mod Override
pub mod Routes
pub mod Installed
pub mod Reloaded
pub mod Lifetime
pub mod Followed
pub mod Teardown
mod Tests
pub mod Failed
pub mod Service
