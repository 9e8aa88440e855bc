-- ===== src/Engine.antt =====
-- The node's engine, rust/node/src/engine/core.rs: the cache of uncommitted documents before a Tantivy
-- index, the operations of a batch, the committer and the pruner, and the engine's start.
pub mod Doc
pub mod Index
pub mod State
pub mod Batch
pub mod Committer
pub mod Induction
pub mod Counts
pub mod Cache
pub mod Newest
pub mod Stored
pub mod Synced
pub mod Sync
pub mod Durable
pub mod Gaps
pub mod Reorder
pub mod Open
pub mod Tests
pub mod ReorderTests
