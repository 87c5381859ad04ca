-- ===== src/Services.antt =====
-- The networks of the virtual services of a cluster: utils/endpointslice.go and utils/pod.go.
pub mod Parameters
pub mod Random
pub mod Imports
pub mod Api
pub mod Apply
pub mod Sync
pub mod Exports
