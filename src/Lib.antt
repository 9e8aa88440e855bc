-- ===== src/Lib.antt =====
-- Tantylla: a search service that follows the change log of a ScyllaDB table. An ingestor routes each
-- change to a node, in batches; a node keeps a Tantivy index with a cache of uncommitted documents; a
-- gateway sends a query to all nodes and merges their answers.
--
-- Base            Shared names, lists, sorting, association lists and integers; Text, TextOrder and
--                 Numbers: what the program uses of Rust's `str` and its parsing.
-- Indexer         The messages between the parts, rust/common/proto/indexer/v1/service.proto.
-- Gateway         `scatter_gather` of rust/gateway/src/querier/core.rs. Facets: the merging of facets.
--                 Gather: the requests, the loop over the answers, the consistency level, the page.
--                 Clients: the addresses of rust/gateway/src/main.rs.
-- Json            serde_json values, `merge_json` and `apply_collection_deltas` of
--                 rust/node/src/engine/core.rs.
-- Engine          Batches and the cache of that file. Doc: documents and their form in the index.
--                 Index: Tantivy, a parameter. State: the engine, `find_cached_or_indexed`. Batch:
--                 `process_batch`, with one function for each arm. Committer: one turn of
--                 `spawn_committer` and of `spawn_pruner`, `list_document_ids_by_partition_key`.
--                 Open: `Engine::new` and its schema.
-- Search          `Engine::search` of that file. Searcher: Tantivy's queries and collectors, a
--                 parameter. Expansion: bare queries over fields. Special:
--                 `try_build_json_special_query`. Hits: the top documents, or the first of each
--                 partition. Facets: the pass over all documents. Run: the whole search.
-- Node            rust/node/src/service/core.rs: the handlers on an engine.
-- Batcher         rust/ingestor/src/batch/service.rs. Service: `add`, `flush`, the ticker, the sends
--                 with their retries; the nodes, the network and the clock are a parameter. Tasks:
--                 the same calls as tasks that take turns at the locks and at the calls of nodes.
-- Routing         Action: rust/ingestor/src/router/common.rs. Consumer:
--                 rust/ingestor/src/cdc/consumer.rs, over the router as an interface. Ids and Range:
--                 document ids and `filter_doc_ids_by_ck_range` of rust/ingestor/src/router/core.rs.
--                 Forward and RangeDelete: `route_forward` and `commit_range_delete` of that file, on
--                 the batch service; a row is read through an interface. Stream: the consumer on that
--                 router. Serialize, Compare and Cql: rows as JSON, `compare_cql_values`, `cql_to_json`
--                 and `cql_value_to_key_string` of rust/ingestor/src/router/utils.rs. Setup: the
--                 numbering of the nodes in rust/ingestor/src/main.rs, `Router::new`, and the key
--                 columns of `get_table_key_info`. Operations and RangeRows: the operations that rows
--                 and range deletes become, written out field by field.
-- Cluster         The parts together. Query: the gateway's clients are the search handlers of nodes.
--                 Ingest: the batch service's calls go over a network that may lose a call or its reply
--                 to the batch handlers of nodes; between the calls a node may do anything to its
--                 engine. Retries and Flush: the sends of a batch and a whole flush. Upsert and
--                 Collections: a row, from its serialization to the document. Addresses: the
--                 numbering of the nodes on both sides. Pipeline: a row, from the router to the engine
--                 of its node.
-- Startup         `main` of rust/node/src/main.rs, rust/gateway/src/main.rs and
--                 rust/ingestor/src/main.rs. Args: the options and their defaults. Logger:
--                 rust/common/src/logger.rs. Start, Node, Gateway, Ingestor: from the options to the
--                 running process; Ingestor has its end too.
-- Testing         Events: rust/common/src/tracing/events.rs. Layer: the payload of a test event,
--                 rust/common/src/tracing/layer.rs. Trace: the matching of sequences of events in
--                 rust/testing/src/trace/core.rs; a wait is the snapshots that it takes. Collector: the
--                 loop of that file over the datagrams of its socket. Growth: waits on that loop.
--
-- Code outside the repository is a parameter: Tantivy (Engine.Index, with the documented laws in
-- Engine.Stored, where a JSON body is given back as it was if it is an object without texts that
-- Tantivy reads as dates; Search.Searcher, with those in Search.Laws), the parser and the equality
-- of JSON values (Json.Deltas, laws in Json.DeltaLaws), the order and the parsing of floats, the
-- texts of CQL values that other crates make, the rows of `scylla_cdc`, and the clients of the
-- gateway and the world of the batch service where they are not nodes of Cluster; for the
-- processes, the parsed command line, the file system, the ScyllaDB driver, the servers and the
-- subscribers of the log. The node's writer lock is held through a batch, so the operations of a
-- batch and the turns of the node's tasks are atomic steps; the service's locks are held for one
-- step of Batcher.Tasks, with the calls of nodes between them. Counters keep their width: u32 and
-- u64 wrap. The products of the retry backoff are plain numbers. The loops over retries recur on
-- the attempts that are left, so there is no fuel. The order of hash maps is the order of first
-- insertion.
--
-- Not modelled: the lines of the log, the socket of the test events, the dispatch of requests and signals
-- by the servers, the processes and containers that the end-to-end tests start, those tests, the
-- benchmarks.
pub mod Base
pub mod Indexer
pub mod Gateway
pub mod Json
pub mod Engine
pub mod Batcher
pub mod Routing
pub mod Search
pub mod Node
pub mod Cluster
pub mod Startup
pub mod Testing
