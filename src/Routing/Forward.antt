-- ===== src/Routing/Forward.antt =====
-- `route_forward`, `enqueue_batch_item` and `commit_range_delete` of rust/ingestor/src/router/core.rs, on
-- the batch service. A row is read through an interface.
use tantylla.Base.{
  ℕ, zero, suc, ◌+◌, ◌*◌, ◌/◌, ◌%◌, ◌^◌, String, Option, none, some, ◌⊎◌, inl, inr, List, [], ◌∷◌,
  map, length, eqb, if◌then◌else◌,
}
use tantylla.Base.Int.{ℤ}
use tantylla.Indexer.{OpType, op_type_code, CollectionDelta}
use tantylla.Batcher.Service as Batch
use tantylla.Batcher.Service.{World, Service, BatchItem, BatchFlushError}
use tantylla.Routing.Action.{OperationType}
use tantylla.Routing.Consumer.{in_context}
use tantylla.Routing.Ids.{join_key}
use tantylla.Routing.Range.{KeyColumns}

-- The rows of `scylla_cdc`, and what rust/ingestor/src/router/utils.rs makes of their values.
pub record Rows : Type 1 where
  pub Row : Type 0
  pub Value : Type 0
  pub get_value : Row → String → Option Value
  pub operation : Row → OperationType
  pub ttl : Row → Option ℤ
  -- `row.time.get_timestamp()` and `to_unix`: seconds and nanoseconds
  pub unix_time : Row → Option (ℕ × ℕ)
  -- `Display`, and `XxHash64` of the texts one after the other
  pub display : Value → String
  pub hash_texts : List String → ℕ
  pub key_string : Value → String
  pub serialize_cdc_row : Row → Option (String × List CollectionDelta)
  pub serialize_postimage : Row → Option String

pub record Router : Type 0 where
  pub node_info : List (ℕ × String)
  pub full_primary_key_columns : List String
  pub columns : KeyColumns

-- `panicked` is a failed `expect`, or a division by zero where there is no node.
pub data RouteError : Type 0 where
  flush_failed add_failed : BatchFlushError → RouteError
  not_time_based serialize_failed fetch_failed panicked : RouteError

unfoldable pub node_of : ℕ → List (ℕ × String) → Option String
node_of id [] = none
node_of id ((i, node) ∷ nodes) = if eqb i id then some node else node_of id nodes

-- secs * 1_000_000 + nanos / 1_000
unfoldable pub writetime_of : Option (ℕ × ℕ) → Option ℕ
writetime_of none = none
writetime_of (some (secs, nanos)) = some ((secs * 1000000 + nanos / 1000) % 2 ^ 64)

module _ (rows : Rows) where
  open rows use {
    Row, Value, get_value, operation, ttl, unix_time, display, hash_texts, key_string,
    serialize_cdc_row, serialize_postimage,
  }

  abbrev key_part : Option Value → String
  key_part none = "null"
  key_part (some v) = key_string v

  unfoldable pub key_of : Row → List String → String
  unfolding join_key
  key_of row columns = join_key (map (λ col. key_part (get_value row col)) columns)

  -- The texts that are hashed; a missing value adds none.
  unfoldable pub hashed_texts : Row → List String → List String
  hashed_texts row [] = []
  hashed_texts row (col ∷ cols) =
      let rest = hashed_texts row cols in
      elim (get_value row col) [ none ↦ rest | some v ↦ display v ∷ rest ]

  -- `none` for no search node.
  unfoldable pub get_target_node_id : Row → List String → ℕ → Option ℕ
  unfolding hashed_texts
  get_target_node_id row pk_names zero = none
  get_target_node_id row pk_names (suc n) = some (hash_texts (hashed_texts row pk_names) % suc n)

  unfoldable pub target_node : Router → Row → Option String
  unfolding get_target_node_id node_of
  target_node router row =
      elim (get_target_node_id row router.columns.partition_key_columns (length router.node_info)) [
        | none ↦ none
        | some id ↦ node_of id router.node_info
      ]

  -- The payload and the deltas of an operation.
  unfoldable pub payload_of : OpType → Row → Option (String × List CollectionDelta)
  payload_of OpType.upsert row = elim (operation row) [
    | OperationType.post_image ↦ elim (serialize_postimage row) [
      | none ↦ none
      | some json ↦ some (json, [])
    ]
    | _ ↦ serialize_cdc_row row
  ]
  payload_of _ row = some ("", [])

  -- The item of a row, or the error; the order of the tests is that of the code.
  unfoldable pub item_of_row : Router → OpType → Row → Option String → RouteError ⊎ BatchItem
  unfolding key_of writetime_of payload_of
  item_of_row router op_type row none = inl panicked
  item_of_row router op_type row (some node) = elim (writetime_of (unix_time row)) [
    | none ↦ inl not_time_based
    | some writetime ↦ elim (payload_of op_type row) [
      | none ↦ inl serialize_failed
      | some payload ↦ inr (record {
        target_node = node;
        id = key_of row router.full_primary_key_columns;
        op_type = op_type_code op_type;
        writetime = writetime;
        cdc_ttl = ttl row;
        payload_json = payload.0;
        collection_deltas = payload.1;
        partition_key = some (key_of row router.columns.partition_key_columns);
      })
    ]
  ]

  module _ (world : World) where
    open world use {State}

    unfoldable pub enqueue_batch_item :
        BatchItem → Service → State → Option RouteError × Service × State
    enqueue_batch_item item s w = elim (world.item_to_json item) [
      | none ↦ (some serialize_failed, s, w)
      | some text ↦ let (e, s', w') = Batch.add world text s w in (in_context add_failed e, s', w')
    ]

    unfoldable pub route_item :
        RouteError ⊎ BatchItem → Service → State → Option RouteError × Service × State
    unfolding enqueue_batch_item
    route_item (inl e) s w = (some e, s, w)
    route_item (inr item) s w = enqueue_batch_item item s w

    -- With backpressure the buffer is flushed first.
    unfoldable pub route_forward :
        Router → Row → OpType → Service → State → Option RouteError × Service × State
    unfolding route_item item_of_row target_node
    route_forward router row op_type s w =
        let item = item_of_row router op_type row (target_node router row) in
        let (e, s', w') = Batch.flush world s w in
        if s.last_flush_failed
        then (elim e [
          | none ↦ route_item item s' w'
          | some failure ↦ (some (flush_failed failure), s', w')
        ])
        else route_item item s w
