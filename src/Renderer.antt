-- ===== src/Renderer.antt =====
-- The package internal/renderer: from a cluster's specification to FreeRADIUS's configuration files.
pub mod Types
pub mod Sanitize
pub mod Validate
pub mod Templates
pub mod Radiusd
pub mod Files
pub mod Modules
pub mod Conditions
pub mod Sites
pub mod Render
pub mod Clients
mod Tests
