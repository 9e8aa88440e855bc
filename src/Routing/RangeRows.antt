-- ===== src/Routing/RangeRows.antt =====
-- A range delete from its two rows to the deletes of its rows, written out field by field.
use tantylla.Base.{
  ℕ, ◌<◌, ◌≡◌, refl, String, Bool, true, false, Option, none, some, inr, List, [], ◌∷◌, ◌++◌, map,
  keep, length, length-map, All,
}
use tantylla.Base.Assoc.{lookup}
use tantylla.Indexer.{IndexOperation, op_type_code}
use tantylla.Batcher.Service.{
  World, Service, BatchItem, operation_of, or_empty, group_items, flush, address_of,
}
use tantylla.Routing.Action.{
  OperationType, PendingRangeStart, range_delete_start, range_delete_end, determine,
}
use tantylla.Routing.Compare.{Floats}
use tantylla.Routing.Consumer.{Consumer, consume_cdc}
use tantylla.Routing.Ids.{join_key, IsPlain}
use tantylla.Routing.Range.{ClusteringKeyColumn}
use tantylla.Routing.Selection.{row_in_range}
use tantylla.Routing.Forward.{Rows, Router, key_of, writetime_of, target_node}
use tantylla.Routing.RangeDelete.{ck_values_of, delete_item, extract_range_delete_start}
use tantylla.Routing.Operations.{micros, id_of}
use tantylla.Routing.Pairs.{consumed, IsUnbounded}
use tantylla.Routing.Stream.{live_router, consume_cdc-deletes}

-- The rows whose own clustering values belong to the range.
abbrev pub starts_inclusively : OperationType → Bool
starts_inclusively OperationType.row_range_del_incl_left = true
starts_inclusively _ = false

abbrev pub ends_inclusively : OperationType → Bool
ends_inclusively OperationType.row_range_del_incl_right = true
ends_inclusively _ = false

module _ (rows : Rows) (router : Router) where
  open rows use {Row, Value, operation}

  abbrev pub bound_text : Option Value → Option String
  bound_text none = none
  bound_text (some v) = some (rows.key_string v)

  abbrev pub bounds_of : Row → List (Option String)
  bounds_of row =
      map (λ (col : ClusteringKeyColumn). bound_text (rows.get_value row col.name))
        router.columns.clustering_key_columns

  module _ (begin : Row) (node : String) (time : ℕ × ℕ) where
    abbrev pub start_of : PendingRangeStart
    start_of = record {
      partition_key = id_of rows begin router.columns.partition_key_columns;
      target_node = node;
      ck_values = bounds_of begin;
      start_inclusive = starts_inclusively (operation begin);
      writetime = micros time.0 time.1;
    }

    abbrev pub delete_item_of : String → BatchItem
    delete_item_of id = record {
      target_node = node;
      id = id;
      op_type = 2;
      writetime = micros time.0 time.1;
      cdc_ttl = none;
      payload_json = "";
      collection_deltas = [];
      partition_key = some (id_of rows begin router.columns.partition_key_columns);
    }

    abbrev pub delete_of : String → IndexOperation
    delete_of id = record {
      id = id;
      op_type = 2;
      writetime = micros time.0 time.1;
      cdc_ttl = none;
      payload_json = "";
      collection_deltas = [];
      partition_key = some (id_of rows begin router.columns.partition_key_columns);
    }

    extract-start_of :
        target_node rows router begin ≡ some node
        → rows.unix_time begin ≡ some time
        → extract_range_delete_start rows router begin ≡ inr start_of
    unfolding extract_range_delete_start writetime_of key_of ck_values_of
    extract-start_of placed timed = rw (placed, timed, extract_range_delete_start) refl

    module _ (fl : Floats) (world : World)
        (fetch : String → String → world.State → Option (List String) × world.State)
        (text : String → String)
        (written : (id : String) → world.item_to_json (delete_item_of id) ≡ some (text id))
        (read : (id : String) → world.item_of_json (text id) ≡ some (delete_item_of id)) where
      -- The rows that are within the bounds of the two rows.
      abbrev pub is_within : Row → List String → Bool
      is_within finish cks =
          row_in_range fl (starts_inclusively (operation begin))
            (ends_inclusively (operation finish)) router.columns.clustering_key_columns cks
            (bounds_of begin) (bounds_of finish)

      -- A stream with the start bound of a range delete, rows that are no bounds, and an end bound: when the
      -- end bound has been read, nothing is pending, and the next batch for the partition's node consists of
      -- one delete for each row of the partition within the two bounds, in order, and of nothing else. Each
      -- delete has the id of its row, the microseconds of the start bound's time and the partition key. A row is
      -- within the bounds when each of its clustering columns, on its own, is beyond the start bound's value and
      -- short of the end bound's, or equal to the one of a bound that is inclusive. Before the end bound
      -- there is no backpressure, and then the first flush succeeds, the node answers with the ids of the
      -- partition's rows, and the deletes leave room in the buffer. Keys are free of colons, and a delete can be
      -- written as JSON and read back.
      pub consume_cdc-range_rows :
          (between : List Row) (finish : Row) (c : Consumer) (before : Service × world.State)
          (pk : String) (pks : List String) (stored : List (List String)) (s s' : Service)
          (w w' w'' : world.State)
          → determine (operation begin) ≡ range_delete_start
          → target_node rows router begin ≡ some node
          → rows.unix_time begin ≡ some time
          → All (IsUnbounded (live_router rows fl world fetch router)) between
          → determine (operation finish) ≡ range_delete_end
          → (consumed (live_router rows fl world fetch router) (begin ∷ between) c before).1
            ≡ (s, w)
          → length (pk ∷ pks) ≡ length router.columns.partition_key_columns
          → All IsPlain (pk ∷ pks)
          → All
              (λ (cks : List String).
                (length cks ≡ length router.columns.clustering_key_columns) × All IsPlain cks)
              stored
          → s.last_flush_failed ≡ false
          → flush world s w ≡ (none, s', w')
          → fetch (address_of node) (id_of rows begin router.columns.partition_key_columns) w'
            ≡ (some (map (λ cks. join_key ((pk ∷ pks) ++ cks)) stored), w'')
          → length (keep (is_within finish) stored) < s.batch_limit
          → let (c', after) =
              consumed (live_router rows fl world fetch router) (begin ∷ between) c before in
            let (e, c'', (s2, w2)) =
              consume_cdc (live_router rows fl world fetch router) finish c' after in
            (e ≡ none)
            × (c''.pending_range_start ≡ none)
            × (w2 ≡ w'')
            × (or_empty (lookup node (group_items world s2.buffer []))
                ≡ map delete_of
                    (map (λ cks. join_key ((pk ∷ pks) ++ cks)) (keep (is_within finish) stored)))
      unfolding delete_item op_type_code operation_of ck_values_of
      consume_cdc-range_rows between finish c before pk pks stored s s' w w' w'' d placed timed u f
            reached n p rs flag flushed fetched room =
          consume_cdc-deletes rows fl world fetch start_of text written read router begin between
            finish c before pk pks stored s s' w w' w'' d (extract-start_of placed timed) u f
            reached n p (length-map _ router.columns.clustering_key_columns) rs flag flushed fetched
            room
