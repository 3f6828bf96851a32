-- ===== src/Socks.antt =====
-- src/socks.rs: the SOCKS5 client. TCP connects go through the library tokio-socks; the UDP ASSOCIATE
-- handshake and the datagram header are the program's own.
pub mod Connect
pub mod Stream
pub mod Handshake
pub mod Negotiated
pub mod Reply
pub mod Datagram
mod Tests
