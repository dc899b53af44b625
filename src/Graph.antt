-- ===== src/Graph.antt =====
-- src/graph: observations of edges, the value functions that rank paths, and graph updates.
pub mod Traits
pub mod Update
pub mod Function
pub mod Search
pub mod Routes
pub mod Health
