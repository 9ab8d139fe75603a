-- ===== src/Router.antt =====
-- sdk/typescript/src/router.ts: discovery of nodes, their cache and the choice of an active node.
pub mod State
pub mod Discover
pub mod Select
pub mod Bounded
pub mod Queries
pub mod Cache
pub mod Active
pub mod Tests
