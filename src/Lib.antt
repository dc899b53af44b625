-- ===== src/Lib.antt =====
-- A verification library for hopr-api, the traits and the logic that the parts of a HOPR node share.
--
-- The crate is mostly interfaces; what it decides itself is modelled here. A path search asks a value
-- function how good each edge is (src/graph/function.rs), reading the observations of an edge through
-- traits (src/graph/traits.rs). A node opens, funds and closes payment channels and redeems tickets
-- (src/node/incentive.rs, src/tickets/mod.rs) by calling its chain, whose channels, accounts, services
-- and Safes are chosen by selectors (src/chain). Deposits are batched (src/chain/deposit_pool.rs).
--
-- - Graph/Traits, Graph/Update: src/graph/traits.rs and src/graph/types.rs. A trait of getters is the
--   record of what its getters return.
-- - Graph/Search: the views, searches and updates of src/graph/traits.rs, as records of operations,
--   with what the traits document of them. Graph/Routes and Graph/Health set them together with the
--   value functions of src/graph/function.rs, at the health that was pushed into the graph. These
--   traits have no implementor in the repository: a graph is an argument, and what its documentation
--   says is a hypothesis.
-- - Graph/Function: src/graph/function.rs. `score_or_penalize`, `scale_by_health`, `apply_ack_rate`,
--   `balance_suffices` and `require_funding` keep their names; `forward`, `returning` and
--   `forward_without_self_loopback` build an `EdgeValueFn` from `edge_value` closures whose arms are
--   `first_edge`, `last_edge`, `return_edge` and `require_funding`. `path_value` in
--   Graph/Function/Discovery folds a value function over a path as src/graph/traits.rs documents it:
--   from the initial value, discarding what falls below the minimum. Comments in
--   src/graph/function.rs say that 0.0 is discarded too: the theorems on paths speak of positive
--   values, which are kept either way. Graph/Function/Ranking compares the values of two paths by
--   their observations, and Graph/Function/Looser those of one path under two ticket prices and
--   minima of acknowledgements.
--   Graph/Function/Relays follows the health of the nodes that a path relays through.
--   Graph/Function/Positive says where the first edge keeps a path positive, and
--   Graph/Function/Arms is what their proofs share about the arms of the closures.
-- - Chain/Channels, Chain/Accounts, Chain/Services, Chain/Safe: the selectors of src/chain, with
--   `satisfies` and the builders. Chain/Tickets: `outgoing_ticket_values`. Chain/Values: the records of
--   src/chain/values.rs and src/chain/events.rs. Chain/Resolver: the resolver of src/chain/mod.rs.
-- - Chain/Pool: src/chain/deposit_pool.rs. Chain/Pool/JoinAll drives the futures in an order that a
--   list of choices gives; Chain/Pool/Attribution matches outcomes with inputs by identifier,
--   and Chain/Pool/Attempts says what was attempted.
-- - Node/Operations: opening, funding and closing of src/node/incentive.rs, as runs over a log of the
--   calls made, with what they return in Node/Operations/Success; Node/Operations/Waiters says which events end the waiting. Node/Queries and
--   Node/Balances: its queries. Node/Errors, Node/State, Node/Peers, Node/Events and Node/Session: the types
--   of src/node, and Health and NetworkEvent of src/network/types.rs.
-- - Tickets: src/tickets/mod.rs and the redemption half of src/node/incentive.rs. Tickets/Merge says
--   what a group of streams may yield.
-- - Float and Word: what stands for f64 and for the 256-bit integers of hopr_types. `IsIeee` states
--   the laws of binary64 that the proofs use, with NaN, and `IsUnsigned` those of U256, whose product
--   is checked; Float/Fixed and Word give instances. Prelude: the shared helpers.
-- - Tests: the theorems at concrete inputs, and the repository's own tests run on the model:
--   Tests/EdgeValues those of src/graph/function.rs with their snapshots, over the stubs and
--   fixtures of Tests/Fixtures; Tests/Pools, Tests/Services, Tests/Sessions and Tests/Redemptions
--   those of src/chain/deposit_pool.rs, src/chain/services.rs, src/node/session/server.rs and
--   src/tickets/mod.rs; Tests/Peers those of src/node/types.rs and src/network/types.rs.
--   Tests/Searching is an executable search, and Tests/Graphs a graph, that keep the contract of
--   Graph/Search; Tests/Draining and Tests/Neglect have a ticket manager that keeps its own.
--
-- Contracts. A stream of redemptions is the list of what it yields when nothing else takes tickets
-- from its channel meanwhile; a consumer that stops at an error has polled a prefix of it. A graph is
-- a state, and an operation that changes it returns the new state.
--
-- Bounds. Powers of 1e-9 are positive in binary64 up to 1e-270, so survival is stated of 30 edges at
-- most; a path has far fewer. A `usize` is a number below 2^64 where its cast matters. The choices of
-- `join_all` are fuel: one for each input is enough. Loops are structural recursion.
--
-- Not modelled: what strum generates; the implementors of the traits (chain client, ticket manager,
-- graph, network), which are arguments; what recording a measurement and the loopback search do in
-- src/graph/traits.rs, and its traits of writes and enumerations, which have no bodies;
-- logging and serialization; the texts of errors; traits without bodies (src/ct,
-- src/network/traits.rs, src/node/transport.rs, src/node/session/client.rs). Conversions by
-- `Into` are the identity.
pub mod Prelude
pub mod Float
pub mod Word
pub mod Graph
pub mod Chain
pub mod Node
pub mod Tickets
mod Tests
