-- ===== src/Routing.antt =====
-- The ingestor's routing of change rows, rust/ingestor/src/router and rust/ingestor/src/cdc: the action
-- that a row asks for, and the consumer of a stream, which pairs the two bounds of a range delete.
pub mod Action
pub mod Consumer
pub mod Pairs
pub mod Cql
pub mod Ids
pub mod Compare
pub mod Range
pub mod Selection
pub mod Forward
pub mod Serialize
pub mod Setup
pub mod Nodes
pub mod Columns
pub mod RangeDelete
pub mod Backpressure
pub mod Operations
pub mod Recovery
pub mod Deletes
pub mod Stream
pub mod RangeRows
pub mod Tests
pub mod ForwardTests
pub mod DeleteTests
