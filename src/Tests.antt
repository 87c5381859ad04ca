-- ===== src/Tests.antt =====
-- Concrete inputs: what the libraries and servers that the code calls are taken to be, and the
-- theorems applied to them.
pub mod World
pub mod Networks
pub mod Tunnels
pub mod Handlers
pub mod Server
pub mod Synced
pub mod Proxy
pub mod Exported
pub mod Equalities
pub mod Slices
pub mod Interfaces
pub mod Cluster
pub mod Names
pub mod ServiceNetworks
