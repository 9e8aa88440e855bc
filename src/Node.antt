-- ===== src/Node.antt =====
-- The node's gRPC service, rust/node/src/service/core.rs.
pub mod Service
