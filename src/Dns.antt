-- ===== src/Dns.antt =====
-- src/dns.rs: DNS over pooled TCP connections.
pub mod Conn
pub mod Alloc
pub mod Pool
pub mod Prune
pub mod Interleaved
pub mod Query
pub mod Replies
pub mod Resolve
pub mod Replace
mod Tests
