-- ===== src/Routing/Stream.antt =====
-- The consumer of a stream on the router and the batch service: rust/ingestor/src/cdc/consumer.rs with
-- rust/ingestor/src/router/core.rs.
use tantylla.Base.{
  ◌<◌, ◌≡◌, ap, ◌∙◌, String, false, Option, none, some, inr, List, [], ◌∷◌, ◌++◌, length, map, keep,
  All,
}
use tantylla.Base.Assoc.{lookup}
use tantylla.Batcher.Service.{World, Service, or_empty, group_items, flush, address_of}
use tantylla.Routing.Action.{PendingRangeStart, range_delete_start, range_delete_end, determine}
use tantylla.Routing.Compare.{Floats}
use tantylla.Routing.Consumer
use tantylla.Routing.Consumer.{Consumer, ConsumeError, commit_range, in_context, consume_cdc}
use tantylla.Routing.Ids.{join_key, IsPlain}
use tantylla.Routing.Selection.{IsRow}
use tantylla.Routing.Forward.{Rows, Router, RouteError, route_forward}
use tantylla.Routing.RangeDelete.{
  is_inclusive_end, delete_item, extract_range_delete_start, commit_range_delete,
}
use tantylla.Routing.Deletes.{
  delete_operations, end_ck_values, is_selected, commit_range_delete-deletes,
}
use tantylla.Routing.Pairs.{consumed, IsUnbounded, consume_cdc-range}

module _ (rows : Rows) (fl : Floats) (world : World)
    (fetch : String → String → world.State → Option (List String) × world.State) where
  open world use {State}
  open rows use {Row, operation}

  -- The router's operations on the service and the world.
  abbrev pub live_router : Router → Consumer.Router
  live_router router = record {
    Row = Row;
    State = Service × State;
    Error = RouteError;
    operation = operation;
    extract_range_delete_start = λ row. extract_range_delete_start rows router row;
    commit_range_delete = λ start row (s, w).
        let (e, s', w') = commit_range_delete rows fl world fetch router start row s w in
        (e, (s', w'));
    route_forward = λ row op_type (s, w).
        let (e, s', w') = route_forward rows world router row op_type s w in (e, (s', w'));
  }

  module _ (start : PendingRangeStart) (text : String → String)
      (to_json : (doc_id : String)
        → world.item_to_json (delete_item start doc_id) ≡ some (text doc_id))
      (of_json : (doc_id : String)
        → world.item_of_json (text doc_id) ≡ some (delete_item start doc_id))
      (router : Router) where
    abbrev selected_rows : Row → List (List String) → List (List String)
    selected_rows finish stored =
        keep (is_selected rows fl world fetch start text to_json of_json router finish) stored

    abbrev resolution :
        Row → Service × State → Option (ConsumeError RouteError) × Consumer × (Service × State)
    resolution finish before =
        let (e, after) = (live_router router).commit_range_delete start finish before in
        (in_context commit_range e, record { pending_range_start = none }, after)

    -- A stream with the start bound of a range delete, rows that are no bounds, and an end bound: when the
    -- end bound has been read, nothing is pending, and the next batch for the partition's node consists of
    -- one delete for each row of the partition whose every clustering column is within the two bounds, in
    -- order, and of nothing else. Before the end bound there is no backpressure, and then the first flush
    -- succeeds, the node answers with the ids of the partition's rows, and the selected ones leave room in
    -- the buffer. Keys are free of colons, and a delete can be written as JSON and read back.
    pub consume_cdc-deletes :
        (begin : Row) (between : List Row) (finish : Row) (c : Consumer) (before : Service × State)
        (pk : String) (pks : List String) (stored : List (List String)) (s s' : Service)
        (w w' w'' : State)
        → determine (operation begin) ≡ range_delete_start
        → extract_range_delete_start rows router begin ≡ inr start
        → All (IsUnbounded (live_router router)) between
        → determine (operation finish) ≡ range_delete_end
        → (consumed (live_router router) (begin ∷ between) c before).1 ≡ (s, w)
        → length (pk ∷ pks) ≡ length router.columns.partition_key_columns
        → All IsPlain (pk ∷ pks)
        → length start.ck_values ≡ length router.columns.clustering_key_columns
        → All
            (IsRow fl router.columns start
              (end_ck_values rows fl world fetch start text to_json of_json router finish)
              (is_inclusive_end (operation finish)))
            stored
        → s.last_flush_failed ≡ false
        → flush world s w ≡ (none, s', w')
        → fetch (address_of start.target_node) start.partition_key w'
          ≡ (some (map (λ cks. join_key ((pk ∷ pks) ++ cks)) stored), w'')
        → length (selected_rows finish stored) < s.batch_limit
        → let (c', after) = consumed (live_router router) (begin ∷ between) c before in
          let (e, c'', (s2, w2)) = consume_cdc (live_router router) finish c' after in
          (e ≡ none)
          × (c''.pending_range_start ≡ none)
          × (w2 ≡ w'')
          × (or_empty (lookup start.target_node (group_items world s2.buffer []))
              ≡ delete_operations rows fl world fetch start text to_json of_json
                  (map (λ cks. join_key ((pk ∷ pks) ++ cks)) (selected_rows finish stored)))
    consume_cdc-deletes begin between finish c before pk pks stored s s' w w' w'' d x u f reached n
          p m rs flag flushed fetched room =
        let q =
          consume_cdc-range (live_router router) begin between finish c before start d x u f in
        let (e, sent, batch) =
          commit_range_delete-deletes rows fl world fetch start text to_json of_json router finish
            pk pks stored s s' w w' w'' n p m rs flag flushed fetched room in
        let resolved = q ∙ ap (resolution finish) reached in
        (
          ap (λ r. r.0) resolved ∙ ap (in_context commit_range) e,
          ap (λ r. r.1.pending_range_start) resolved,
          ap (λ r. r.2.1) resolved ∙ sent,
          ap (λ r. or_empty (lookup start.target_node (group_items world r.2.0.buffer []))) resolved
              ∙ batch,
        )
