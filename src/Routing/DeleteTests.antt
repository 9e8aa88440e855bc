-- ===== src/Routing/DeleteTests.antt =====
-- Examples: a range delete over a partition of three rows, with items that are written as themselves.
use tantylla.Base.{
  ◌==◌, if◌then◌else◌, ℕ, ◌≡◌, refl, String, true, Option, none, some, List, [], ◌∷◌, arith,
}
use tantylla.Base.Assoc.{lookup}
use tantylla.Base.Numbers.{parse_i64}
use tantylla.Batcher.Service.{World, err, or_empty, group_items, flush, flush_items}
use tantylla.Routing.Action.{
  OperationType, PendingRangeStart, pre_image, row_range_del_incl_left, row_range_del_incl_right,
  determine,
}
use tantylla.Routing.Ids.{join_key}
use tantylla.Routing.Compare.{compare_cql_values, compare_parsed}
use tantylla.Routing.Forward.{
  Rows, Router, target_node, get_target_node_id, node_of, hashed_texts, writetime_of, key_of,
}
use tantylla.Routing.RangeDelete.{ck_values_of, delete_item, extract_range_delete_start}
use tantylla.Routing.Consumer.{start_range, consume_action, consume_cdc}
use tantylla.Routing.Pairs.{consumed}
use tantylla.Indexer.{op_type_code}
use tantylla.Routing.Stream.{live_router}
use tantylla.Routing.RangeRows.{consume_cdc-range_rows}
use tantylla.Routing.ForwardTests.{quiet}
use tantylla.Routing.Tests.{no_floats}

-- A row is an operation and the value of its clustering key.
abbrev stream_rows : Rows
stream_rows = record {
  Row = OperationType × String;
  Value = String;
  get_value = λ row col. if col == "user" then some "p" else some row.1;
  operation = λ row. row.0;
  ttl = λ row. none;
  unix_time = λ row. some (0, 5000);
  display = λ v. v;
  hash_texts = λ texts. 7;
  key_string = λ v. v;
  serialize_cdc_row = λ row. some ("{}", []);
  serialize_postimage = λ row. none;
}

abbrev from_three : PendingRangeStart
from_three = record {
  partition_key = "p";
  target_node = "n1";
  ck_values = some "3" ∷ [];
  start_inclusive = true;
  writetime = 5;
}

-- The text of a delete is its id.
abbrev by_id : World
by_id = record {
  State = ℕ;
  item_to_json = λ i. some i.id;
  item_of_json = λ text. some (delete_item from_three text);
  try_send_batch = λ address ops n. (err "down", n);
  sleep = λ ms n. n;
}

abbrev seq_router : Router
seq_router = record {
  node_info = (0, "n1") ∷ [];
  full_primary_key_columns = "user" ∷ "seq" ∷ [];
  columns = record {
    partition_key_columns = "user" ∷ [];
    clustering_key_columns = record { name = "seq"; cql_type = "int" } ∷ [];
  };
}

abbrev partition_ids : String → String → ℕ → Option (List String) × ℕ
partition_ids address pk n = (some ("p:2" ∷ "p:5" ∷ "p:10" ∷ []), n)

placed : target_node stream_rows seq_router (row_range_del_incl_left, "3") ≡ some "n1"
unfolding target_node get_target_node_id node_of hashed_texts
placed = refl

-- The range from 3 to 5, with both bounds and a pre-image between them.
consume_cdc-range_rows_example :
    let live = live_router stream_rows no_floats by_id partition_ids seq_router in
    let (c, between) =
      consumed live
        ((row_range_del_incl_left, "3") ∷ (pre_image, "4") ∷ [])
        (record { pending_range_start = none })
        (quiet, 0) in
    let (e, c', (s, w)) = consume_cdc live (row_range_del_incl_right, "5") c between in
    (e ≡ none)
    × (c'.pending_range_start ≡ none)
    × (w ≡ 0)
    × (or_empty (lookup "n1" (group_items by_id s.buffer []))
        ≡ record {
          id = "p:5";
          op_type = 2;
          writetime = 5;
          cdc_ttl = none;
          payload_json = "";
          collection_deltas = [];
          partition_key = some "p";
        }
          ∷ [])
unfolding join_key compare_cql_values compare_parsed parse_i64 determine delete_item op_type_code
consume_cdc-range_rows_example =
    consume_cdc-range_rows stream_rows seq_router (row_range_del_incl_left, "3") "n1" (0, 5000)
      no_floats by_id partition_ids (λ id. id) (λ id. refl) (λ id. refl) ((pre_image, "4") ∷ [])
      (row_range_del_incl_right, "5") (record { pending_range_start = none }) (quiet, 0) "p" []
      (("2" ∷ []) ∷ ("5" ∷ []) ∷ ("10" ∷ []) ∷ []) quiet quiet 0 0 0 refl placed refl
      (((λ e. cc), (λ e. cc)), tt) refl
      (unfold consume_cdc consume_action start_range extract_range_delete_start target_node
          get_target_node_id node_of hashed_texts writetime_of key_of ck_values_of in
        refl)
      refl ((refl, tt), tt)
      ((refl, ((refl, tt), tt)), ((refl, ((refl, tt), tt)), ((refl, ((refl, (refl, tt)), tt)), tt)))
      refl (unfold flush flush_items in refl) refl (omega arith)
