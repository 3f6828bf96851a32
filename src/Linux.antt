-- ===== src/Linux.antt =====
-- src/platform/linux: the resolver override, and the routes set by netlink.
pub mod ResolvConf
pub mod Override
pub mod Netlink
pub mod Gateways
pub mod Detect
pub mod Detected
pub mod RouteManager
pub mod Table
pub mod Install
pub mod Apply
pub mod Succeeds
pub mod Remove
pub mod Teardown
pub mod Reloaded
pub mod Owned
pub mod Followed
pub mod Lifetime
pub mod Plans
mod Tests
