-- ===== src/Proxy.antt =====
-- pkg/proxy: what the proxy keeps of service imports and of endpoint slices between two of its syncs.
pub mod Ports
pub mod Changes
pub mod Slices
pub mod Endpoints
