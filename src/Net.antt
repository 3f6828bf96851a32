-- ===== src/Net.antt =====
-- src/net.rs: CIDR blocks, the route table that classifies flows, and the bypass-list difference.
pub mod Masks
pub mod Cidr
pub mod RouteTable
pub mod Diff
mod Tests
