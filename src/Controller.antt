-- ===== src/Controller.antt =====
-- The package internal/controller: what the reconcilers compute from the custom resources.
pub mod Secrets
pub mod Context
pub mod Endpoints
pub mod Objects
pub mod Pod
pub mod Steps
pub mod Hashes
pub mod Restarts
pub mod Errors
pub mod Outcome
pub mod Quote
pub mod Policies
pub mod Clusters
pub mod Clients
pub mod Tests
