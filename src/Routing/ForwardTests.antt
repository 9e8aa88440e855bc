-- ===== src/Routing/ForwardTests.antt =====
-- Examples: rows of one column, one node, and a world that sends nothing.
use mathlib.Core.List.Perm
use tantylla.Base.{
  ℕ, ◌≡◌, refl, String, true, false, none, some, [], ◌∷◌, ◌==◌, contains, if◌then◌else◌, arith,
}
use tantylla.Base.Assoc.{lookup}
use tantylla.Indexer.{upsert, op_type_code}
use tantylla.Batcher.Service.{World, Service, err, BatchItem, or_empty, group_items, tick}
use tantylla.Routing.Action.{row_insert}
use tantylla.Routing.Ids.{join_key}
use tantylla.Routing.Forward.{
  Rows, Router, key_of, hashed_texts, payload_of, writetime_of, get_target_node_id, node_of,
  target_node, item_of_row, route_forward,
}
use tantylla.Routing.Recovery.{route_forward-two_ticks}
use tantylla.Routing.Setup.{TableKeyInfo, node_info_of, new_router}
use tantylla.Routing.Nodes.{target_node-Perm}
use tantylla.Base.Int.{pos}
use tantylla.Routing.Backpressure.{Refused, route_forward-Refused}
use tantylla.Routing.Operations.{change, route_forward-row_operation}

abbrev pub keys : Rows
keys = record {
  Row = String;
  Value = String;
  get_value = λ row col. some row;
  operation = λ row. row_insert;
  ttl = λ row. none;
  unix_time = λ row. some (5, 2000);
  display = λ v. v;
  hash_texts = λ texts. 7;
  key_string = λ v. v;
  serialize_cdc_row = λ row. some ("{}", []);
  serialize_postimage = λ row. none;
}

abbrev pub one_node_router : Router
one_node_router = record {
  node_info = (0, "n1") ∷ [];
  full_primary_key_columns = "user" ∷ [];
  columns = record { partition_key_columns = "user" ∷ []; clustering_key_columns = [] };
}

abbrev pub routed : BatchItem
routed = record {
  target_node = "n1";
  id = "u1";
  op_type = 1;
  writetime = 5000002;
  cdc_ttl = none;
  payload_json = "{}";
  collection_deltas = [];
  partition_key = some "u1";
}

abbrev silent : World
silent = record {
  State = ℕ;
  item_to_json = λ i. some "routed";
  item_of_json = λ text. if text == "routed" then some routed else none;
  try_send_batch = λ address ops n. (err "down", n);
  sleep = λ ms n. n;
}

abbrev user_key : TableKeyInfo
user_key = record {
  partition_key_columns = "user" ∷ [];
  full_primary_key_columns = "user" ∷ [];
  clustering_key_columns = [];
}

abbrev pub quiet : Service
quiet = record {
  batch_limit = 250;
  buffer = [];
  max_retry_attempts = 3;
  retry_backoff_ms = 100;
  last_flush_failed = false;
}

-- A row of two key columns, of which the second has no value, with a TTL.
abbrev dated : Rows
dated = record keys {
  get_value = λ row col. if col == "user" then some row else none;
  ttl = λ row. some (pos 60);
}

abbrev two_key_router : Router
two_key_router = record one_node_router { full_primary_key_columns = "user" ∷ "seq" ∷ [] }

abbrev dated_item : BatchItem
dated_item = record routed { id = "u1:null"; cdc_ttl = some (pos 60) }

abbrev dated_world : World
dated_world = record silent { item_of_json = λ text. some dated_item }

route_forward-row_operation_example :
    let (e, s', w') = route_forward dated dated_world two_key_router "u1" upsert quiet 0 in
    (e ≡ none)
    × (w' ≡ 0)
    × (or_empty (lookup "n1" (group_items dated_world s'.buffer []))
        ≡ record {
          id = "u1:null";
          op_type = 1;
          writetime = 5000002;
          cdc_ttl = some (pos 60);
          payload_json = "{}";
          collection_deltas = [];
          partition_key = some "u1";
        }
          ∷ [])
unfolding target_node get_target_node_id node_of hashed_texts join_key group_items lookup
route_forward-row_operation_example =
    route_forward-row_operation dated two_key_router "u1" upsert "n1" (5, 2000) "{}" [] dated_world
      quiet 0 "routed" "n1" refl (omega arith) refl refl (change refl refl) refl refl

-- The buffer is empty, so that the flush succeeds.
route_forward-Refused_example :
    Refused keys silent
      (route_forward keys silent one_node_router "u1" upsert
        (record quiet { last_flush_failed = true })
        0).0
route_forward-Refused_example =
    route_forward-Refused keys silent one_node_router "u1" upsert
      (record quiet { last_flush_failed = true }) 0 refl

-- A failed flush has set the flag; the row is taken after two turns of the ticker.
route_forward-two_ticks_example :
    let failing = record quiet { buffer = "routed" ∷ []; last_flush_failed = true } in
    let (e, s', w') =
      route_forward keys silent one_node_router "u1" upsert
        (tick silent (tick silent failing 0).0 0).0
        0 in
    (e ≡ none) × (s'.buffer ≡ "routed" ∷ []) × (w' ≡ 0)
unfolding item_of_row target_node get_target_node_id node_of hashed_texts writetime_of payload_of
    key_of join_key op_type_code
route_forward-two_ticks_example =
    route_forward-two_ticks keys silent one_node_router "u1" upsert
      (record quiet { buffer = "routed" ∷ []; last_flush_failed = true }) 0 0 0 routed "routed"
      (omega arith) refl refl

-- The same three nodes in two orders.
target_node-Perm_example :
    (node : String) × (target_node keys
        (new_router (node_info_of ("b" ∷ "c" ∷ "a" ∷ [])) user_key)
        "u1"
      ≡ some node)
    × (target_node keys (new_router (node_info_of ("c" ∷ "b" ∷ "a" ∷ [])) user_key) "u1"
        ≡ some node)
    × (contains node ("b" ∷ "c" ∷ "a" ∷ []) ≡ true)
target_node-Perm_example =
    target_node-Perm keys ("b" ∷ "c" ∷ "a" ∷ []) ("c" ∷ "b" ∷ "a" ∷ []) user_key "u1" (omega arith)
      (Perm.swap "c" "b" ("a" ∷ []))
