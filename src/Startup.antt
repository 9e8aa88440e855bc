-- ===== src/Startup.antt =====
-- The three binaries from their options to the running process: `main` of rust/node/src/main.rs,
-- rust/gateway/src/main.rs and rust/ingestor/src/main.rs, and rust/common/src/logger.rs.
pub mod Args
pub mod Start
pub mod Logger
pub mod Node
pub mod Gateway
pub mod Ingestor
pub mod Defaults
pub mod Nodes
pub mod Tests
