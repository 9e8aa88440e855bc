-- ===== src/Cluster/PipelineTests.antt =====
-- Examples: a row of the router's examples, over the network of the cluster's examples.
use tantylla.Base.{◌≡◌, refl, none, some, List, [], ◌∷◌, ◌++◌, arith, ◌==◌, if◌then◌else◌}
use tantylla.Base.Assoc.{lookup, insert, update, retain}
use tantylla.Indexer.{upsert, op_type_code, op_type_of, IndexOperation}
use tantylla.Json.Tests.{small_json}
use tantylla.Json.Value.{entry, get}
use tantylla.Json.Merge.{merge_json, merge_fields}
use tantylla.Engine.State.{find_cached_or_indexed}
use tantylla.Engine.Doc.{full_doc_wrapper}
use tantylla.Engine.Batch.{
  process_ops, apply_op, apply_upsert, is_stale, upserted, add_to_index, put_doc, process_batch,
}
use tantylla.Node.Service.{index_batch}
use tantylla.Engine.Tests.{memory, no_docs}
use tantylla.Batcher.Service.{
  World, Service, send_attempts, send_batch_with_retry, send_batches, record_result, flush_result,
  total_processed, max_writetime, operation_of, push_operation, group_items, flush_items, flush,
  address_of, add,
}
use tantylla.Routing.Forward.{route_forward, item_of_row, target_node}
use tantylla.Routing.ForwardTests.{keys, one_node_router, routed, quiet}
use tantylla.Cluster.Ingest.{network, send, delivered, handled}
use tantylla.Cluster.Tests.{fates, commits, cluster}
use tantylla.Cluster.Flush.{IsTaken}
use tantylla.Engine.Committer.{commit_tick}
use tantylla.Routing.Ids.{join_key}
use tantylla.Routing.Operations.{change}
use tantylla.Cluster.Pipeline.{route_forward-Taken}

abbrev lossy : World
lossy =
    network small_json memory "error" "no reply" "no node" (λ i. some "routed")
      (λ text. if text == "routed" then some routed else none) fates commits

abbrev holding : Service
holding = record quiet { buffer = "routed" ∷ [] }

abbrev batch : List IndexOperation
batch = operation_of routed ∷ []

grouped : group_items lossy holding.buffer [] ≡ ("n1", batch) ∷ []
unfolding group_items push_operation operation_of update
grouped = refl

flushed : (flush lossy holding cluster).0 ≡ none
unfolding flush flush_items group_items push_operation operation_of send_batches record_result
    flush_result total_processed max_writetime send_batch_with_retry send_attempts send delivered
    handled index_batch process_batch process_ops op_type_of apply_op apply_upsert
    find_cached_or_indexed lookup insert update is_stale upserted address_of add_to_index put_doc
    full_doc_wrapper merge_json merge_fields entry get commit_tick retain
flushed = refl

-- The first call is lost, and of the second one the reply.
route_forward-Taken_example :
    (ops : List IndexOperation) × IsTaken small_json memory "error" "no reply" "no node"
      (λ i. some "routed")
      (λ text. if text == "routed" then some routed else none)
      fates
      commits
      (λ node. no_docs)
      holding
      (flush lossy holding cluster).2
      (
        "n1",
        ops
            ++ record {
              id = "u1";
              op_type = 1;
              writetime = 5000002;
              cdc_ttl = none;
              payload_json = "{}";
              collection_deltas = [];
              partition_key = some "u1";
            }
              ∷ [],
      )
unfolding target_node route_forward add address_of join_key item_of_row op_type_code
route_forward-Taken_example =
    route_forward-Taken small_json memory "error" "no reply" "no node" (λ i. some "routed")
      (λ text. if text == "routed" then some routed else none) fates commits (λ node. no_docs) keys
      one_node_router "u1" upsert "n1" (5, 2000) "{}" [] quiet holding cluster cluster "routed" refl
      (omega arith) refl refl (change refl refl) refl refl refl (rw grouped (tt, tt))
      (rw grouped (unfold lookup in refl, tt)) flushed
