-- ===== src/Agb.antt =====
-- primary/src/vantage/agb.rs: the AGB engine.
pub mod Types
pub mod Formed
pub mod State
pub mod Statements
pub mod Tallies
pub mod Steps
pub mod Votes
pub mod Monad
pub mod Rechecks
pub mod Meta
pub mod Handlers
pub mod Receive
pub mod Engine
pub mod Respects
pub mod Laws
pub mod Evolution
pub mod Irrevocable
pub mod Quorums
