-- ===== src/Net.antt =====
-- What utils/netutil.go uses of Go's package net, for IPv4: addresses as 32-bit numbers, networks
-- with a prefix length, and the texts "a.b.c.d" and "a.b.c.d/n". An IPv6 text does not parse here.
pub mod Addr
pub mod Format
pub mod RoundTrip
pub mod Range
pub mod Parsed
