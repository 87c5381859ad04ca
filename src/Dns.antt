-- ===== src/Dns.antt =====
-- pkg/plugin: the DNS server for the names of multi-cluster services.
pub mod Parse
pub mod Names
pub mod Answer
pub mod Headless
