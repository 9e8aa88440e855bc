-- ===== src/Search.antt =====
-- The node's search, `search` and `try_build_json_special_query` of rust/node/src/engine/core.rs.
pub mod Searcher
pub mod Expansion
pub mod Special
pub mod Hits
pub mod Facets
pub mod Run
pub mod Laws
pub mod Page
pub mod Groups
pub mod Counts
pub mod Whole
pub mod Marks
pub mod Queries
pub mod Expanded
pub mod Tests
