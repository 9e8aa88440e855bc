-- ===== src/Cluster.antt =====
-- The parts together: the gateway on nodes, the ingestor's batch service on nodes, and a row from the router
-- to its node.
pub mod Query
pub mod Ingest
pub mod Retries
pub mod Flush
pub mod Upsert
pub mod Collections
pub mod Pipeline
pub mod Tests
pub mod PipelineTests
pub mod Addresses
