-- ===== src/Sequence.antt =====
-- primary/src/vantage/sequence.rs: the sequence of terminal views, its checkpoints and its transfer.
pub mod Hash
pub mod Store
pub mod Collector
pub mod Chain
pub mod Transfer
pub mod Handlers
pub mod Wants
pub mod Links
pub mod Absorb
pub mod Scan
pub mod Deltas
pub mod Linked
pub mod Sound
pub mod Steps
pub mod Bodies
pub mod Entries
pub mod Runs
pub mod Parts
pub mod Faithful
pub mod Heads
pub mod Evictions
pub mod Retracted
pub mod Counted
pub mod Judged
pub mod Served
pub mod Costs
pub mod Errors
