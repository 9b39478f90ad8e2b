-- ===== src/Api.antt =====
-- The custom resources of api/v1alpha1.
pub mod Modules
pub mod Cluster
pub mod Resources
pub mod Objects
