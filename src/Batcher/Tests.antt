-- ===== src/Batcher/Tests.antt =====
-- Examples: one node that fails for a number of calls, and then answers.
use tantylla.Base.{
  ℕ, zero, suc, ◌≡◌, String, true, false, none, some, List, [], ◌∷◌, length, ◌==◌, if◌then◌else◌,
  arith,
}
use tantylla.Base.Assoc.{lookup, update}
use tantylla.Indexer.{IndexOperation}
use tantylla.Batcher.Service.{
  World, Service, SendResult, ok, err, BatchItem, operation_of, or_empty, push_operation,
  group_items, send_attempts, send_batch_with_retry, flush,
}
use tantylla.Batcher.Grouping.{lookup-group_items}
use tantylla.Batcher.Delivery.{Acknowledges, flush-outcome}

abbrev item : BatchItem
item = record {
  target_node = "n1";
  id = "u1";
  op_type = 1;
  writetime = 5;
  cdc_ttl = none;
  payload_json = "{x}";
  collection_deltas = [];
  partition_key = none;
}

abbrev call : List IndexOperation → ℕ → SendResult String × ℕ
call ops zero = (ok (record { processed_count = length ops; skipped_count = 0; success = true }), 0)
call ops (suc n) = (err "down", n)

-- The state is the number of calls that fail before the node answers.
abbrev pub one_node : World
one_node = record {
  State = ℕ;
  item_to_json = λ i. some "item";
  item_of_json = λ text. if text == "item" then some item else none;
  try_send_batch = λ address ops n. call ops n;
  sleep = λ ms n. n;
}

one_node-Acknowledges : Acknowledges one_node
one_node-Acknowledges address ops zero r e = ground arith
one_node-Acknowledges address ops (suc n) r e = cc

abbrev pub waiting : Service
waiting = record {
  batch_limit = 250;
  buffer = "item" ∷ "?" ∷ "item" ∷ [];
  max_retry_attempts = 3;
  retry_backoff_ms = 100;
  last_flush_failed = false;
}

abbrev operation : IndexOperation
operation = record {
  id = "u1";
  op_type = 1;
  writetime = 5;
  cdc_ttl = none;
  payload_json = "{x}";
  collection_deltas = [];
  partition_key = none;
}

-- The node answers the second call.
flush-outcome_example : (flush one_node waiting 1).0 ≡ none
unfolding group_items push_operation update send_batch_with_retry send_attempts
flush-outcome_example = flush-outcome one_node waiting 1 one_node-Acknowledges

lookup-group_items_example :
    or_empty (lookup "n1" (group_items one_node ("item" ∷ "?" ∷ "item" ∷ []) []))
    ≡ operation ∷ operation ∷ []
unfolding operation_of
lookup-group_items_example = lookup-group_items one_node "n1" ("item" ∷ "?" ∷ "item" ∷ [])
