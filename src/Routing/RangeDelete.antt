-- ===== src/Routing/RangeDelete.antt =====
-- `extract_range_delete_start` and `commit_range_delete` of rust/ingestor/src/router/core.rs.
use tantylla.Base.{
  ℕ, zero, suc, String, Bool, true, false, Option, none, some, ◌⊎◌, inl, inr, List, [], ◌∷◌, map,
}
use tantylla.Indexer.{op_type_code, OpType}
use tantylla.Batcher.Service as Batch
use tantylla.Batcher.Service.{World, Service, BatchItem, BatchFlushError, address_of}
use tantylla.Routing.Action.{OperationType, PendingRangeStart}
use tantylla.Routing.Consumer.{in_context}
use tantylla.Routing.Compare.{Floats}
use tantylla.Routing.Range.{ClusteringKeyColumn, filter_doc_ids_by_ck_range}
use tantylla.Routing.Forward.{
  Rows, Router, RouteError, not_time_based, fetch_failed, panicked, key_of, writetime_of,
  target_node, enqueue_batch_item,
}

abbrev is_inclusive_start : OperationType → Bool
is_inclusive_start OperationType.row_range_del_incl_left = true
is_inclusive_start _ = false

abbrev pub is_inclusive_end : OperationType → Bool
is_inclusive_end OperationType.row_range_del_incl_right = true
is_inclusive_end _ = false

unfoldable pub delete_item : PendingRangeStart → String → BatchItem
delete_item start doc_id = record {
  target_node = start.target_node;
  id = doc_id;
  op_type = op_type_code OpType.delete;
  writetime = start.writetime;
  cdc_ttl = none;
  payload_json = "";
  collection_deltas = [];
  partition_key = some start.partition_key;
}

module _ (rows : Rows) where
  open rows use {Row, get_value, operation, unix_time, key_string}

  -- The clustering values of a bound; a missing one is unbounded.
  unfoldable pub ck_values_of : Row → List ClusteringKeyColumn → List (Option String)
  ck_values_of row = map λ col. in_context key_string (get_value row col.name)

  unfoldable pub extract_range_delete_start : Router → Row → RouteError ⊎ PendingRangeStart
  unfolding ck_values_of key_of target_node writetime_of
  extract_range_delete_start router row = elim (target_node rows router row) [
    | none ↦ inl panicked
    | some node ↦ elim (writetime_of (unix_time row)) [
      | none ↦ inl not_time_based
      | some writetime ↦ inr (record {
        partition_key = key_of rows row router.columns.partition_key_columns;
        target_node = node;
        ck_values = ck_values_of row router.columns.clustering_key_columns;
        start_inclusive = is_inclusive_start (operation row);
        writetime = writetime;
      })
    ]
  ]

  -- `fetch` is the call of the node: its address and the partition key, and the ids or an error.
  module _ (fl : Floats) (world : World)
      (fetch : String → String → world.State → Option (List String) × world.State) where
    open world use {State}

    -- `for i in 0..FLUSH_RETRIES`, with the turns that are left.
    unfoldable pub flush_retries : ℕ → Service → State → Service × State
    flush_retries zero s w = (s, w)
    flush_retries (suc left) s w =
        let (e, s', w') = Batch.flush world s w in
        let rest = flush_retries left s' w' in elim e [ none ↦ (s', w') | some failure ↦ rest ]

    -- The first error ends the loop.
    unfoldable pub enqueue_deletes :
        PendingRangeStart → List String → Service → State → Option RouteError × Service × State
    unfolding delete_item
    enqueue_deletes start [] s w = (none, s, w)
    enqueue_deletes start (doc_id ∷ doc_ids) s w =
        let (e, s', w') = enqueue_batch_item rows world (delete_item start doc_id) s w in
        let rest = enqueue_deletes start doc_ids s' w' in
        elim e [ none ↦ rest | some failure ↦ (some failure, s', w') ]

    unfoldable pub delete_matching :
        Router
        → PendingRangeStart
        → Row
        → List String
        → Service
        → State
        → Option RouteError × Service × State
    unfolding ck_values_of enqueue_deletes
    delete_matching router start row doc_ids s w =
        let end_ck_values = ck_values_of row router.columns.clustering_key_columns in
        let end_inclusive = is_inclusive_end (operation row) in
        elim (filter_doc_ids_by_ck_range fl router.columns start end_ck_values end_inclusive
          doc_ids) [
            | none ↦ (some panicked, s, w)
            | some matching_ids ↦ enqueue_deletes start matching_ids s w
          ]

    -- The error of the connection or of the call is one.
    abbrev fetch_doc_ids_for_partition : String → String → State → Option (List String) × State
    fetch_doc_ids_for_partition target_node partition_key w =
        fetch (address_of target_node) partition_key w

    unfoldable pub commit_range_delete :
        Router → PendingRangeStart → Row → Service → State → Option RouteError × Service × State
    unfolding flush_retries delete_matching
    commit_range_delete router start row s w =
        let (s', w') = flush_retries 3 s w in
        let (all_doc_ids, w'') =
          fetch_doc_ids_for_partition start.target_node start.partition_key w' in
        elim all_doc_ids [
          | none ↦ (some fetch_failed, s', w'')
          | some doc_ids ↦ delete_matching router start row doc_ids s' w''
        ]
