-- ===== src/Operator.antt =====
-- The package cmd/operator: the program's two modes, and the mode that renders the clients.
pub mod Refs
pub mod RenderClients
mod Tests
