-- ===== src/Node.antt =====
-- src/node: errors, on-chain operations with their event waiters, sessions and states of a node.
pub mod Errors
pub mod Operations
pub mod Queries
pub mod Peers
pub mod Session
pub mod State
pub mod Events
pub mod Balances
