-- ===== src/Routing/Backpressure.antt =====
-- `route_forward` and the batch service, with and without backpressure.
use mathlib.Core.List.{append-nil, append_assoc}
use tantylla.Base.{
  sym, suc, ◌<◌, ◌≡◌, refl, ap, ◌∙◌, String, Bool, true, false, Option, none, some, ◌⊎◌, inl, inr,
  List, [], ◌∷◌, ◌++◌, length, length-append, ◌==◌, if◌then◌else◌, arith, Option-cases,
}
use tantylla.Base.Assoc.{lookup}
use tantylla.Indexer.{OpType}
use tantylla.Batcher.Service.{
  World, Service, BatchItem, BatchFlushError, operation_of, or_empty, group_items, flush,
  flush_items, add,
}
use tantylla.Batcher.Grouping.{item_operations, operations_for, lookup-group_items}
use tantylla.Routing.Forward.{
  Rows, Router, RouteError, flush_failed, enqueue_batch_item, route_item, item_of_row, target_node,
  route_forward,
}

module _ (rows : Rows) (world : World) where
  open world use {State}

  pub flag-flush :
      (s : Service) (w : State) → (flush world s w).1.last_flush_failed ≡ s.last_flush_failed
  unfolding flush flush_items
  flag-flush s w = by_cases s.buffer
    where
      by_cases :
          (items : List String)
          → (flush_items world items s w).1.last_flush_failed ≡ s.last_flush_failed
      by_cases [] = refl
      by_cases (item ∷ items) = refl

  -- A result that is an error.
  abbrev pub Refused : Option RouteError → Type 0
  Refused o = (e : RouteError) × (o ≡ some e)

  enqueue-Refused :
      (item : BatchItem) (s : Service) (w : State)
      → s.last_flush_failed ≡ true
      → Refused (enqueue_batch_item rows world item s w).0
  unfolding enqueue_batch_item add
  enqueue-Refused item s w h = elim (Option-cases (world.item_to_json item)) [
    | inl q ↦ rw (q, enqueue_batch_item) (_, refl)
    | inr (text, q) ↦ rw (q, h, enqueue_batch_item) (_, refl)
  ]

  route_item-Refused :
      (i : RouteError ⊎ BatchItem) (s : Service) (w : State)
      → s.last_flush_failed ≡ true
      → Refused (route_item rows world i s w).0
  unfolding route_item
  route_item-Refused (inl e) s w h = (e, refl)
  route_item-Refused (inr item) s w h = enqueue-Refused item s w h

  -- With backpressure every row is refused, also when the flush before it succeeds.
  pub route_forward-Refused :
      (router : Router) (row : rows.Row) (op_type : OpType) (s : Service) (w : State)
      → s.last_flush_failed ≡ true
      → Refused (route_forward rows world router row op_type s w).0
  unfolding route_forward
  route_forward-Refused router row op_type s w h = by_flag s.last_flush_failed h (flush world s w).0
    where
      by_flag :
          (b : Bool)
          → b ≡ true
          → (x : Option BatchFlushError)
          → Refused
              (if b
                then (elim x [
                  | none ↦
                      route_item rows world
                        (item_of_row rows router op_type row (target_node rows router row))
                        (flush world s w).1
                        (flush world s w).2
                  | some failure ↦
                      (some (flush_failed failure), (flush world s w).1, (flush world s w).2)
                ])
                else (route_item rows world
                    (item_of_row rows router op_type row (target_node rows router row))
                    s
                    w)).0
      by_flag true e none =
          route_item-Refused (item_of_row rows router op_type row (target_node rows router row))
            (flush world s w).1 (flush world s w).2 (flag-flush s w ∙ h)
      by_flag true e (some failure) = (_, refl)
      by_flag false e x = absurd (cc)

  add_room :
      (text : String) (s : Service) (w : State)
      → s.last_flush_failed ≡ false
      → suc (length s.buffer) < s.batch_limit
      → add world text s w ≡ (none, record s { buffer = s.buffer ++ text ∷ [] }, w)
  unfolding add
  add_room text s w h room = ground (arith, length-append s.buffer (text ∷ []))

  pub enqueue_room :
      (item : BatchItem) (text : String) (s : Service) (w : State)
      → s.last_flush_failed ≡ false
      → suc (length s.buffer) < s.batch_limit
      → world.item_to_json item ≡ some text
      → enqueue_batch_item rows world item s w
        ≡ (none, record s { buffer = s.buffer ++ text ∷ [] }, w)
  unfolding enqueue_batch_item
  enqueue_room item text s w h room json = ground (arith, json, add_room text s w h room)

  pub route_forward_room :
      (router : Router) (row : rows.Row) (op_type : OpType) (s : Service) (w : State)
      (item : BatchItem) (text : String)
      → s.last_flush_failed ≡ false
      → suc (length s.buffer) < s.batch_limit
      → item_of_row rows router op_type row (target_node rows router row) ≡ inr item
      → world.item_to_json item ≡ some text
      → route_forward rows world router row op_type s w
        ≡ (none, record s { buffer = s.buffer ++ text ∷ [] }, w)
  unfolding route_forward route_item
  route_forward_room router row op_type s w item text h room made json =
      ground (arith, h, made, enqueue_room item text s w h room json)

  pub operations_for-append :
      (node : String) (xs : List String) (text : String)
      → operations_for world node (xs ++ text ∷ [])
        ≡ operations_for world node xs ++ item_operations world node (world.item_of_json text)
  operations_for-append node [] text = append-nil _
  operations_for-append node (x ∷ xs) text =
      ap (λ ops. item_operations world node (world.item_of_json x) ++ ops)
        (operations_for-append node xs text)
      ∙ sym (append_assoc (item_operations world node (world.item_of_json x)) _ _)

  -- Without backpressure, with room in the buffer, and where the item of a row can be written as JSON
  -- and read back: the row is taken, nothing is sent yet, and its operation stands last in the batch of
  -- its node, the batches of the other nodes being as before.
  pub route_forward-grouped :
      (router : Router) (row : rows.Row) (op_type : OpType) (s : Service) (w : State)
      (item : BatchItem) (text : String) (node : String)
      → s.last_flush_failed ≡ false
      → suc (length s.buffer) < s.batch_limit
      → item_of_row rows router op_type row (target_node rows router row) ≡ inr item
      → world.item_to_json item ≡ some text
      → world.item_of_json text ≡ some item
      → let (e, s', w') = route_forward rows world router row op_type s w in
        (e ≡ none)
        × (w' ≡ w)
        × (or_empty (lookup node (group_items world s'.buffer []))
            ≡ or_empty (lookup node (group_items world s.buffer []))
              ++ (if item.target_node == node then operation_of item ∷ [] else []))
  route_forward-grouped router row op_type s w item text node h room made json back =
      let q = route_forward_room router row op_type s w item text h room made json in
      (
        ap (λ r. r.0) q,
        ap (λ r. r.2) q,
        ap (λ r. or_empty (lookup node (group_items world r.1.buffer []))) q
            ∙ lookup-group_items world node (s.buffer ++ text ∷ [])
            ∙ operations_for-append node s.buffer text
            ∙ ap (λ o. operations_for world node s.buffer ++ item_operations world node o) back
            ∙ ap (λ ops. ops ++ item_operations world node (some item))
                (sym (lookup-group_items world node s.buffer)),
      )
