-- ===== src/Gateway.antt =====
-- The gateway's scatter-gather of rust/gateway/src/querier/core.rs and its handler of
-- rust/gateway/src/server/handlers.rs. A client is the answer of its node to a request; the texts of
-- the errors are the values that they are formatted from.
pub mod Facets
pub mod Gather
pub mod Collect
pub mod Consistency
pub mod Paging
pub mod FacetCounts
pub mod Tests
pub mod Clients
