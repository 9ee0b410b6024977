-- ===== src/Resolve.antt =====
-- primary/src/vantage/direct_resolution.rs: agreement on the outcome of one target view.
pub mod Candidates
pub mod Counts
pub mod Schedule
pub mod State
pub mod Types
pub mod Monad
pub mod Steps
pub mod Views
pub mod Values
pub mod Phases
pub mod Replay
pub mod Propose
pub mod Wishes
pub mod Handlers
pub mod Targets
pub mod Evidence
pub mod Engine
pub mod Sound
pub mod Lasting
pub mod Winners
pub mod Fair
pub mod Rotation
