-- ===== src/Controllers.antt =====
-- pkg/controller: the controllers of this repository's own (its endpointslice controller is a copy of
-- the one of Kubernetes, and is not modelled).
pub mod Routes
pub mod Inter
pub mod Inner
