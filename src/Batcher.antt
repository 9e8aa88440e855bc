-- ===== src/Batcher.antt =====
-- The ingestor's batch service, rust/ingestor/src/batch/service.rs. The nodes, the network and the
-- clock are one world that the operations pass on, in one piece (Service) or step by step (Tasks).
pub mod Service
pub mod Buffer
pub mod Grouping
pub mod Retry
pub mod Delivery
pub mod Branches
pub mod Tasks
pub mod Tests
pub mod TasksTests
