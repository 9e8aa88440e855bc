-- ===== src/Cluster/Tests.antt =====
-- Examples: two nodes with the same documents, and a node behind a network that loses replies.
use Prim.Native.Nat.{compare}
use tantylla.Base.{
  if◌then◌else◌, ◌==◌, ℕ, zero, suc, ◌≡◌, refl, Ordering, String, true, false, not, ◌&&◌, ◌||◌,
  Option, none, some, List, [], ◌∷◌, take, drop, concat, All, arith,
}
use tantylla.Base.Int.{pos}
use tantylla.Base.Sort
use tantylla.Base.Sort.{IsPreorder}
use tantylla.Base.Assoc.{lookup, insert, update, retain}
use tantylla.Indexer.{
  Status, SearchRequest, SearchResponse, SearchHit, all_nodes, IndexOperation, op_type_of,
}
use tantylla.Json.Value.{
  Value, Fields, array, object, string, nil, cons, field, end, get, entry, items_to_list,
  items_of_list,
}
use tantylla.Json.Merge.{merge_json, merge_fields}
use tantylla.Json.Deltas.{JsonOps, contains_value, listed_values}
use tantylla.Json.Tests.{small_json, small_json-IsEquality}
use tantylla.Routing.Action.{row_update}
use tantylla.Routing.Tests.{plain_formats}
use tantylla.Routing.Cql.{set, ascii, value, no_values, cql_to_json}
use tantylla.Routing.Serialize.{
  CdcRow, put, cdc_metadata, put_value, column_delta, has_changes, add_column, add_columns,
  serialize_cdc_row,
}
use tantylla.Gateway.Gather.{ok, score_before, scatter_gather}
use tantylla.Engine.State.{Engine, find_cached_or_indexed}
use tantylla.Engine.Committer.{commit_tick}
use tantylla.Engine.Batch.{
  process_ops, apply_op, apply_upsert, is_stale, upserted, add_to_index, put_doc, process_batch,
  merged_body,
}
use tantylla.Engine.Doc.{Doc, full_doc_wrapper}
use tantylla.Engine.Tests.{memory, no_docs, both}
use tantylla.Batcher.Service.{
  World, Service, BatchItem, send_attempts, send_batch_with_retry, send_batches, record_result,
  flush_result, total_processed, max_writetime, operation_of, push_operation, group_items,
  flush_items, flush, address_of,
}
use tantylla.Search.Hits.{hit_of}
use tantylla.Search.Run.{query_of}
use tantylla.Search.Expansion.{effective_query}
use tantylla.Search.Special.{try_build_json_special_query, special_of_trimmed, is_compound}
use tantylla.Search.Tests.{parsed, listing, three_docs, three_ranks}
use tantylla.Node.Service.{params_of, index_batch}
use tantylla.Cluster.Query.{NodeAt, client_of, hits_at, hits-cluster}
use tantylla.Cluster.Ingest.{
  Fate, reply_lost, not_sent, answered, Nodes, network, send, delivered, handled,
}
use tantylla.Cluster.Flush.{IsTaken, flush-IsTaken}
use tantylla.Cluster.Collections.{elements_at, merged_body-elements}

abbrev cmp : ℕ → ℕ → Option Ordering
cmp a b = some (compare a b)

cmp-IsPreorder : IsPreorder (score_before cmp)
unfolding score_before
cmp-IsPreorder = record { le_total = λ x y h. ground arith; le_trans = λ x y z h k. ground arith }

abbrev timed_out : Status
timed_out = record { code = "Unavailable"; message = "down" }

abbrev node : NodeAt listing "error" timed_out (parsed "red")
node = record {
  engine = record {
    index = (three_docs, three_docs);
    snapshot = three_docs;
    uncommitted_docs = [];
    current_generation = 0;
  };
  start_micros = pos 0;
  end_micros = pos 5;
  ranks = three_ranks "red" refl;
}

abbrev red_page : SearchRequest ℕ
red_page = record {
  query = "red";
  limit = 2;
  offset = 1;
  consistency = all_nodes;
  default_fields = [];
  facet_fields = [];
  boost_fields = [];
  group_by_partition = false;
}

abbrev hits : List (List (SearchHit ℕ))
hits =
    hits_at listing "error" timed_out (parsed "red") node
    ∷ hits_at listing "error" timed_out (parsed "red") node
    ∷ []

hits-IsSorted : All (Sort.IsSorted (score_before cmp)) hits
unfolding score_before hit_of
hits-IsSorted = (
  ((refl, (refl, tt)), ((refl, tt), (tt, tt))),
  (((refl, (refl, tt)), ((refl, tt), (tt, tt))), tt),
)

hits-cluster_example :
    (r : SearchResponse ℕ) × (scatter_gather cmp
        (client_of listing "error" timed_out (parsed "red") node
          ∷ client_of listing "error" timed_out (parsed "red") node
          ∷ [])
        red_page
      ≡ ok r)
    × (r.hits ≡ take 2 (drop 1 (Sort.sort (score_before cmp) (concat hits))))
hits-cluster_example =
    hits-cluster listing "error" timed_out cmp (parsed "red") (node ∷ node ∷ []) red_page
      (unfold query_of effective_query params_of try_build_json_special_query special_of_trimmed
          is_compound in
        refl)
      refl cmp-IsPreorder hits-IsSorted (omega arith) (omega arith) (omega arith)

-- The first call is lost, of the second one the reply, and the third one is answered.
abbrev pub fates : ℕ → Fate
fates zero = not_sent "down"
fates (suc zero) = reply_lost "timeout"
fates (suc (suc n)) = answered

abbrev pub cluster : Nodes small_json memory "error" "no reply" "no node"
cluster = record { engines = ("http://n1", no_docs) ∷ []; calls = 0 }

-- The items of `both`, as texts.
abbrev item_of : String → Option BatchItem
item_of text = some (record {
  target_node = "n1";
  id = "u1";
  op_type = 1;
  writetime = if text == "write" then 5 else 4;
  cdc_ttl = none;
  payload_json = "{x}";
  collection_deltas = [];
  partition_key = some "p";
})

-- The node commits, without a reload, before every call.
abbrev pub commits : ℕ → String → Engine memory → Engine memory
commits call address engine = commit_tick memory false engine

abbrev unreliable : World
unreliable =
    network small_json memory "error" "no reply" "no node" (λ i. none) item_of fates commits

abbrev waiting : Service
waiting = record {
  batch_limit = 250;
  buffer = "write" ∷ "older" ∷ [];
  max_retry_attempts = 3;
  retry_backoff_ms = 100;
  last_flush_failed = false;
}

grouped : group_items unreliable waiting.buffer [] ≡ ("n1", both) ∷ []
unfolding group_items push_operation operation_of update
grouped = refl

flushed : (flush unreliable waiting cluster).0 ≡ none
unfolding flush flush_items group_items push_operation operation_of send_batches record_result
    flush_result total_processed max_writetime send_batch_with_retry send_attempts send delivered
    handled index_batch process_batch process_ops op_type_of apply_op apply_upsert
    find_cached_or_indexed lookup insert update is_stale upserted address_of add_to_index put_doc
    full_doc_wrapper merge_json merge_fields entry get commit_tick retain
flushed = refl

-- The node takes the batch twice, with a commit in between.
flush-IsTaken_example :
    All
      (IsTaken small_json memory "error" "no reply" "no node"
        (λ i. none)
        item_of
        fates
        commits
        (λ node. no_docs)
        waiting
        (flush unreliable waiting cluster).2)
      (("n1", both) ∷ [])
unfolding group_items push_operation operation_of update
flush-IsTaken_example =
    flush-IsTaken small_json memory "error" "no reply" "no node" (λ i. none) item_of fates commits
      (λ node. no_docs) waiting cluster (tt, tt) (unfold lookup address_of in refl, tt) flushed

-- A row that sets no name, although its document has one.
abbrev nameless : CdcRow
nameless = record {
  stream_id = "s";
  time = "t";
  unix_time = none;
  batch_seq_no = pos 0;
  ttl = none;
  operation = row_update;
  non_cdc_column_names = "name" ∷ [];
  collection_exists = λ column. false;
  is_value_deleted = λ column. true;
  get_value = λ column. none;
  get_deleted_elements = λ column. [];
}

-- The parser knows the text of the row's payload.
abbrev row_json : JsonOps
row_json = record small_json { parse_value = λ text. some (object (cdc_metadata nameless)) }

abbrev row_text : Value → Option String
row_text v = some "{row}"

abbrev named_doc : Doc
named_doc = record {
  id = "u1";
  partition_key = "p";
  doc = object (field "name" (string "alice") end);
  expires_at = pos 99;
  writetime = 5;
  generation = 0;
}

abbrev row_write : IndexOperation
row_write = record {
  id = "u1";
  op_type = 1;
  writetime = 9;
  cdc_ttl = none;
  payload_json = "{row}";
  collection_deltas = [];
  partition_key = some "p";
}

-- `tags = tags - {'a'} + {'b', 'c'}`
abbrev tagging : CdcRow
tagging = record nameless {
  non_cdc_column_names = "tags" ∷ [];
  collection_exists = λ column. true;
  is_value_deleted = λ column. false;
  get_value = λ column. some (set (value (ascii "b") (value (ascii "c") no_values)));
  get_deleted_elements = λ column. ascii "a" ∷ [];
}

abbrev tag_text : Value → Option String
tag_text (object m) = some "{row}"
tag_text (array (cons v (cons w vs))) = some "[b,c]"
tag_text _ = some "[a]"

abbrev tag_write : IndexOperation
tag_write = record row_write {
  collection_deltas =
      record {
        column = "tags";
        tombstoned = false;
        added_elements_json = "[b,c]";
        deleted_elements_json = "[a]";
      }
      ∷ [];
}

abbrev old_tags : Fields
old_tags = field "tags" (array (cons (string "a") (cons (string "d") nil))) end

merged_body-elements_example :
    (new : Fields) × (merged_body row_json
        (some (record named_doc { doc = object old_tags }))
        tag_write
      ≡ object new)
    × (contains_value row_json (string "a") (elements_at "tags" new)
        ≡ ((contains_value row_json (string "a") (string "a" ∷ string "d" ∷ []) && not false)
            && not (contains_value row_json (string "a") (string "a" ∷ [])))
          || contains_value row_json (string "a") (string "b" ∷ string "c" ∷ []))
unfolding get items_to_list cql_to_json
merged_body-elements_example =
    merged_body-elements plain_formats tag_text row_json
      (record {
        same = small_json-IsEquality.same;
        swap = small_json-IsEquality.swap;
        via = small_json-IsEquality.via;
      })
      tagging tag_write (record named_doc { doc = object old_tags }) old_tags "tags" (string "a")
      (λ text e. unfold add_columns add_column put_value cdc_metadata in refl)
      (unfold serialize_cdc_row add_columns add_column put_value column_delta has_changes
          cql_to_json items_of_list in
        refl)
      refl (refl, tt) refl (unfold cdc_metadata put entry get in refl) refl
      (unfold listed_values items_to_list cql_to_json in refl)
      (unfold listed_values items_of_list cql_to_json in refl)
