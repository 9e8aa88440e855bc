-- ===== src/Routing/Operations.antt =====
-- The operations that rows become, written out field by field: `route_forward` of
-- rust/ingestor/src/router/core.rs and the conversion in `flush` of rust/ingestor/src/batch/service.rs.
use tantylla.Base.{
  ℕ, suc, ◌+◌, ◌*◌, ◌/◌, ◌%◌, ◌^◌, ◌<◌, ◌≡◌, refl, ap, ◌∙◌, String, Bool, true, false, Option, none,
  some, inr, List, [], ◌∷◌, ◌++◌, map, length, ◌==◌, if◌then◌else◌,
}
use tantylla.Base.Assoc.{lookup}
use tantylla.Indexer.{OpType, IndexOperation, CollectionDelta, op_type_code}
use tantylla.Batcher.Service.{World, Service, BatchItem, operation_of, or_empty, group_items}
use tantylla.Routing.Action.{OperationType}
use tantylla.Routing.Ids.{join_key}
use tantylla.Routing.Forward.{
  Rows, Router, key_of, writetime_of, payload_of, item_of_row, target_node, route_forward,
}
use tantylla.Routing.Backpressure.{route_forward-grouped}

-- The codes of the protocol.
abbrev pub code_of : OpType → ℕ
code_of OpType.unspecified = 0
code_of OpType.upsert = 1
code_of OpType.delete = 2
code_of OpType.partition_delete = 3

-- Microseconds since the epoch, in u64.
abbrev pub micros : ℕ → ℕ → ℕ
micros secs nanos = (secs * 1000000 + nanos / 1000) % 2 ^ 64

abbrev pub is_post_image : OperationType → Bool
is_post_image OperationType.post_image = true
is_post_image _ = false

op_type_code-code_of : (o : OpType) → op_type_code o ≡ code_of o
unfolding op_type_code
op_type_code-code_of OpType.unspecified = refl
op_type_code-code_of OpType.upsert = refl
op_type_code-code_of OpType.delete = refl
op_type_code-code_of OpType.partition_delete = refl

module _ (rows : Rows) where
  open rows use {Row, Value}

  abbrev pub key_text : Option Value → String
  key_text none = "null"
  key_text (some v) = rows.key_string v

  -- The values of some columns, joined by colons.
  abbrev pub id_of : Row → List String → String
  id_of row columns = join_key (map (λ col. key_text (rows.get_value row col)) columns)

  -- What an operation carries: an upsert the whole post-image, or the columns of a change and its deltas;
  -- a delete nothing.
  pub data Carries (row : Row) : OpType → String → List CollectionDelta → Type 0 where
    whole :
        {json : String}
        → rows.operation row ≡ OperationType.post_image
        → rows.serialize_postimage row ≡ some json
        → Carries row OpType.upsert json []
    change :
        {json : String} {deltas : List CollectionDelta}
        → is_post_image (rows.operation row) ≡ false
        → rows.serialize_cdc_row row ≡ some (json, deltas)
        → Carries row OpType.upsert json deltas
    erased : Carries row OpType.delete "" []
    erased_partition : Carries row OpType.partition_delete "" []

  payload_of-Carries :
      (row : Row) {op_type : OpType} {json : String} {deltas : List CollectionDelta}
      → Carries row op_type json deltas
      → payload_of rows op_type row ≡ some (json, deltas)
  unfolding payload_of
  payload_of-Carries row (whole post h) = rw (post, h, payload_of) refl
  payload_of-Carries row {deltas = deltas} (change {json = json} no_post h) =
      by_operation (rows.operation row) no_post
    where
      by_operation :
          (o : OperationType)
          → is_post_image o ≡ false
          → (elim o [
            | OperationType.post_image ↦ elim (rows.serialize_postimage row) [
              | none ↦ none
              | some text ↦ some (text, [])
            ]
            | _ ↦ rows.serialize_cdc_row row
          ])
            ≡ some (json, deltas)
      by_operation OperationType.post_image q = cc
      by_operation _ q = h
  payload_of-Carries row erased = refl
  payload_of-Carries row erased_partition = refl

  module _ (router : Router) (row : Row) (op_type : OpType) (node : String) (time : ℕ × ℕ)
      (json : String) (deltas : List CollectionDelta) where
    abbrev pub row_item : BatchItem
    row_item = record {
      target_node = node;
      id = id_of row router.full_primary_key_columns;
      op_type = code_of op_type;
      writetime = micros time.0 time.1;
      cdc_ttl = rows.ttl row;
      payload_json = json;
      collection_deltas = deltas;
      partition_key = some (id_of row router.columns.partition_key_columns);
    }

    abbrev pub row_operation : IndexOperation
    row_operation = record {
      id = id_of row router.full_primary_key_columns;
      op_type = code_of op_type;
      writetime = micros time.0 time.1;
      cdc_ttl = rows.ttl row;
      payload_json = json;
      collection_deltas = deltas;
      partition_key = some (id_of row router.columns.partition_key_columns);
    }

    pub operation_of-row_item : operation_of row_item ≡ row_operation
    unfolding operation_of
    operation_of-row_item = refl

    pub item_of_row-row_item :
        rows.unix_time row ≡ some time
        → Carries row op_type json deltas
        → item_of_row rows router op_type row (some node) ≡ inr row_item
    unfolding item_of_row writetime_of key_of op_type_code
    item_of_row-row_item timed carries =
        rw (timed, payload_of-Carries row carries, op_type_code-code_of op_type, item_of_row) refl

    -- Without backpressure, with room in the buffer, and where the row's item can be written as JSON and read
    -- back: the row is taken, nothing is sent yet, and the last operation of the batch of its node has the
    -- full primary key as its id, the code of its type, the microseconds of the row's time, the row's TTL, the
    -- post-image or the change with its deltas, and the partition key; the batches of the other nodes are as
    -- before. The row has a node and a time, and an upsert can be serialized.
    pub route_forward-row_operation :
        (world : World) (s : Service) (w : world.State) (text other : String)
        → s.last_flush_failed ≡ false
        → suc (length s.buffer) < s.batch_limit
        → target_node rows router row ≡ some node
        → rows.unix_time row ≡ some time
        → Carries row op_type json deltas
        → world.item_to_json row_item ≡ some text
        → world.item_of_json text ≡ some row_item
        → let (e, s', w') = route_forward rows world router row op_type s w in
          (e ≡ none)
          × (w' ≡ w)
          × (or_empty (lookup other (group_items world s'.buffer []))
              ≡ or_empty (lookup other (group_items world s.buffer []))
                ++ (if node == other then row_operation ∷ [] else []))
    route_forward-row_operation world s w text other clear room placed timed carries written read =
        let made : item_of_row rows router op_type row (target_node rows router row)
            ≡ inr row_item =
          ap (item_of_row rows router op_type row) placed ∙ item_of_row-row_item timed carries in
        unfold operation_of in
        route_forward-grouped rows world router row op_type s w row_item text other clear room made
          written read
