-- ===== src/Tests.antt =====
-- The theorems at concrete inputs.
mod Draining
mod Searching
mod Graphs
mod Neglect
mod Peers
mod Routes
mod Graph
mod Ranking
mod Pools
mod Sessions
mod Services
mod Redemptions
mod Fixtures
mod EdgeValues
mod Chain
mod Node
mod Tickets
