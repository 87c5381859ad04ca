-- ===== src/Tunnel.antt =====
-- pkg/tunnel: the WireGuard device of a cnf pod and the connections that it keeps track of, to other
-- clusters (by cluster id) and to the nodes of its own cluster (by node name). The mutexes make each
-- operation one step; the log lines are left out.
pub mod Subnets
pub mod Types
pub mod Device
pub mod Connect
pub mod Tracking
pub mod Config
pub mod InnerTracking
pub mod Options
