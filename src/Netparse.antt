-- ===== src/Netparse.antt =====
-- internal/netparse: readers of packet headers, DNS messages and TLS ClientHellos.
pub mod Header
pub mod Bounds
pub mod Dns
pub mod Tls
pub mod Reset
