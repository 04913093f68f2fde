-- ===== src/ChainLaws.antt =====
-- What the routing of a rule chain guarantees (chain.go).
pub mod Routes
pub mod Cache
pub mod Nodes
pub mod Loaded
mod Tests
