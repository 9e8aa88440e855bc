-- ===== src/Routing/Deletes.antt =====
-- What `commit_range_delete` hands to the batch service.
use mathlib.Core.List.{append-nil, append_assoc}
use tantylla.Base.{
  ◌+◌, ◌<◌, ◌≡◌, refl, ap, sym, ◌∙◌, String, Bool, false, Option, none, some, List, [], ◌∷◌, ◌++◌,
  length, length-append, length-map, map, keep, All, arith, eq_refl,
}
use tantylla.Base.Assoc.{lookup}
use tantylla.Batcher.Service.{
  World, flush, Service, operation_of, or_empty, group_items, address_of,
}
use tantylla.Batcher.Buffer.{buffer-flush, limit-flush}
use tantylla.Batcher.Grouping.{operations_for, lookup-group_items}
use tantylla.Indexer.{IndexOperation}
use tantylla.Routing.Action.{PendingRangeStart}
use tantylla.Routing.Compare.{Floats}
use tantylla.Routing.Ids.{join_key, IsPlain}
use tantylla.Routing.Range.{filter_doc_ids_by_ck_range}
use tantylla.Routing.Selection.{IsRow, selected, filter_doc_ids_by_ck_range-rows}
use tantylla.Routing.Forward.{Rows, Router}
use tantylla.Routing.Backpressure.{flag-flush, enqueue_room}
use tantylla.Routing.RangeDelete.{
  ck_values_of, is_inclusive_end, delete_item, flush_retries, enqueue_deletes, delete_matching,
  commit_range_delete,
}

module _ (rows : Rows) (fl : Floats) (world : World)
    (fetch : String → String → world.State → Option (List String) × world.State)
    (start : PendingRangeStart) (text : String → String)
    (to_json : (doc_id : String)
      → world.item_to_json (delete_item start doc_id) ≡ some (text doc_id))
    (of_json : (doc_id : String)
      → world.item_of_json (text doc_id) ≡ some (delete_item start doc_id)) where
  open world use {State}
  open rows use {Row, operation}

  abbrev pub delete_operations : List String → List IndexOperation
  delete_operations doc_ids = map (λ doc_id. operation_of (delete_item start doc_id)) doc_ids

  enqueue_deletes_room :
      (doc_ids : List String) (s : Service) (w : State)
      → s.last_flush_failed ≡ false
      → length s.buffer + length doc_ids < s.batch_limit
      → enqueue_deletes rows fl world fetch start doc_ids s w
        ≡ (none, record s { buffer = s.buffer ++ map text doc_ids }, w)
  unfolding enqueue_deletes
  enqueue_deletes_room [] s w flag room =
      ap (λ b. (none, record s { buffer = b }, w)) (sym (append-nil s.buffer))
  enqueue_deletes_room (doc_id ∷ doc_ids) s w flag room =
      let item = delete_item start doc_id in
      let next : Service = record s { buffer = s.buffer ++ text doc_id ∷ [] } in
      ground (
        arith,
        enqueue_room rows world item (text doc_id) s w flag (omega arith) (to_json doc_id),
        enqueue_deletes_room doc_ids next w flag
            (omega (arith, length-append s.buffer (text doc_id ∷ []))),
        append_assoc s.buffer (text doc_id ∷ []) (map text doc_ids),
      )

  operations_for-delete_texts :
      (doc_ids : List String)
      → operations_for world start.target_node (map text doc_ids) ≡ delete_operations doc_ids
  unfolding delete_item
  operations_for-delete_texts [] = refl
  operations_for-delete_texts (doc_id ∷ doc_ids) =
      rw (of_json doc_id, eq_refl start.target_node)
        (ap (λ ops. operation_of (delete_item start doc_id) ∷ ops)
          (operations_for-delete_texts doc_ids))

  module _ (router : Router) (row : Row) where
    abbrev pub end_ck_values : List (Option String)
    end_ck_values = ck_values_of rows row router.columns.clustering_key_columns

    abbrev pub is_selected : List String → Bool
    is_selected = selected fl router.columns start end_ck_values (is_inclusive_end (operation row))

    flush_retries_flushed :
        (s s' : Service) (w w' : State)
        → flush world s w ≡ (none, s', w')
        → flush_retries rows fl world fetch 3 s w ≡ (s', w')
    unfolding flush_retries
    flush_retries_flushed s s' w w' h = ground (arith, h)

    delete_matching_room :
        (doc_ids matching : List String) (s : Service) (w : State)
        → s.last_flush_failed ≡ false
        → length s.buffer + length matching < s.batch_limit
        → filter_doc_ids_by_ck_range fl router.columns start end_ck_values
            (is_inclusive_end (operation row))
            doc_ids
          ≡ some matching
        → delete_matching rows fl world fetch router start row doc_ids s w
          ≡ (none, record s { buffer = s.buffer ++ map text matching }, w)
    unfolding delete_matching
    delete_matching_room doc_ids matching s w flag room h =
        rw (h, delete_matching) (enqueue_deletes_room matching s w flag room)

    -- Where the first flush succeeds, the node answers with the ids of the partition's rows, and the rows
    -- that are selected leave room in the buffer: the range delete succeeds, and the next batch for the
    -- node consists of one delete for each row whose every clustering column is within the bounds, in
    -- order, and of nothing else. Keys are free of colons, as in the selection, a delete can be written as
    -- JSON and read back, and there is no backpressure.
    pub commit_range_delete-deletes :
        (pk : String) (pks : List String) (stored : List (List String)) (s s' : Service)
        (w w' w'' : State)
        → length (pk ∷ pks) ≡ length router.columns.partition_key_columns
        → All IsPlain (pk ∷ pks)
        → length start.ck_values ≡ length router.columns.clustering_key_columns
        → All
            (IsRow fl router.columns start end_ck_values (is_inclusive_end (operation row)))
            stored
        → s.last_flush_failed ≡ false
        → flush world s w ≡ (none, s', w')
        → fetch (address_of start.target_node) start.partition_key w'
          ≡ (some (map (λ cks. join_key ((pk ∷ pks) ++ cks)) stored), w'')
        → length (keep is_selected stored) < s.batch_limit
        → let (e, s2, w2) = commit_range_delete rows fl world fetch router start row s w in
          (e ≡ none)
          × (w2 ≡ w'')
          × (or_empty (lookup start.target_node (group_items world s2.buffer []))
              ≡ delete_operations
                  (map (λ cks. join_key ((pk ∷ pks) ++ cks)) (keep is_selected stored)))
    unfolding commit_range_delete
    commit_range_delete-deletes pk pks stored s s' w w' w'' n p m rs flag flushed fetched room =
        let matching = map (λ cks. join_key ((pk ∷ pks) ++ cks)) (keep is_selected stored) in
        let empty : s'.buffer ≡ [] = sym (ap (λ r. r.1.buffer) flushed) ∙ buffer-flush world s w in
        let filtered =
          filter_doc_ids_by_ck_range-rows fl router.columns start end_ck_values
            (is_inclusive_end (operation row)) pk pks stored n p m
            (length-map _ router.columns.clustering_key_columns) rs in
        let enqueued =
          delete_matching_room (map (λ cks. join_key ((pk ∷ pks) ++ cks)) stored) matching s' w''
            (sym (ap (λ r. r.1.last_flush_failed) flushed) ∙ flag-flush rows world s w ∙ flag)
            (omega (
              arith,
              ap length empty,
              length-map (λ cks. join_key ((pk ∷ pks) ++ cks)) (keep is_selected stored),
              ap (λ r. r.1.batch_limit) flushed,
              limit-flush world s w,
            ))
            filtered in
        let committed : commit_range_delete rows fl world fetch router start row s w
            ≡ (none, record s' { buffer = s'.buffer ++ map text matching }, w'') =
          ground (arith, flush_retries_flushed s s' w w' flushed, fetched, enqueued) in
        rw (committed, empty)
          (
            refl,
            refl,
            lookup-group_items world start.target_node (map text matching)
                ∙ operations_for-delete_texts matching,
          )
