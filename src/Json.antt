-- ===== src/Json.antt =====
-- JSON documents: `serde_json::Value` as the node uses it, and the two operations of
-- rust/node/src/engine/core.rs on documents, `merge_json` and `apply_collection_deltas`.
pub mod Value
pub mod Merge
pub mod MergeLaws
pub mod Deltas
pub mod DeltaLaws
pub mod Tests
