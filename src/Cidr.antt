-- ===== src/Cidr.antt =====
-- utils/netutil.go: choosing addresses and subnets. Each text is read again where the source does.
pub mod Index
pub mod Divide
pub mod Blocks
