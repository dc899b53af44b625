-- ===== src/Chain.antt =====
-- src/chain: selectors, fallible reads and batches of the on-chain interface.
pub mod Channels
pub mod Accounts
pub mod Services
pub mod Safe
pub mod Tickets
pub mod Pool
pub mod Resolver
pub mod Values
