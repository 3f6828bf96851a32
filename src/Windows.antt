-- ===== src/Windows.antt =====
-- src/platform/windows: the TUN device.
pub mod Tun
pub mod Unread
pub mod Reads
mod Tests
pub mod Dns
pub mod Detect
pub mod Override
pub mod Routes
pub mod Installed
pub mod Steps
pub mod Reloaded
pub mod Teardown
