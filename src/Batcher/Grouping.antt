-- ===== src/Batcher/Grouping.antt =====
-- The grouping of the buffer by node, in `flush`.
use mathlib.Core.List.{append-nil, append_assoc}
use tantylla.Base.{
  ◌≡◌, sym, ap, ◌∙◌, String, Option, none, some, List, [], ◌∷◌, ◌++◌, ◌==◌, eq_iff, arith,
  if◌then◌else◌,
}
use tantylla.Base.Assoc.{lookup, lookup-update}
use tantylla.Indexer.{IndexOperation}
use tantylla.Batcher.Service.{
  World, BatchItem, NodeBatches, operation_of, or_empty, push_operation, group_items,
}

module _ (world : World) where
  -- The operations of the items for one node.
  abbrev pub item_operations : String → Option BatchItem → List IndexOperation
  item_operations node none = []
  item_operations node (some i) = if i.target_node == node then operation_of i ∷ [] else []

  abbrev pub operations_for : String → List String → List IndexOperation
  operations_for node [] = []
  operations_for node (item ∷ items) =
      item_operations node (world.item_of_json item) ++ operations_for node items

  lookup-push_operation :
      (node : String) (i : BatchItem) (batches : NodeBatches)
      → or_empty (lookup node (push_operation i batches))
        ≡ or_empty (lookup node batches) ++ item_operations node (some i)
  unfolding push_operation
  lookup-push_operation node i batches = ground (
    arith,
    lookup-update i.target_node node (λ o. or_empty o ++ operation_of i ∷ []) batches,
    eq_iff i.target_node node,
    append-nil (or_empty (lookup node batches)),
  )

  abbrev grouped_one : String → NodeBatches → NodeBatches
  grouped_one item batches = elim (world.item_of_json item) [
    | none ↦ batches
    | some i ↦ push_operation i batches
  ]

  lookup-grouped_one :
      (node item : String) (batches : NodeBatches)
      → or_empty (lookup node (grouped_one item batches))
        ≡ or_empty (lookup node batches) ++ item_operations node (world.item_of_json item)
  lookup-grouped_one node item batches = by_cases (world.item_of_json item)
    where
      by_cases :
          (o : Option BatchItem)
          → or_empty (lookup node (elim o [ none ↦ batches | some i ↦ push_operation i batches ]))
            ≡ or_empty (lookup node batches) ++ item_operations node o
      by_cases none = sym (append-nil _)
      by_cases (some i) = lookup-push_operation node i batches

  lookup-group_items_from :
      (node : String) (items : List String) (batches : NodeBatches)
      → or_empty (lookup node (group_items world items batches))
        ≡ or_empty (lookup node batches) ++ operations_for node items
  unfolding group_items
  lookup-group_items_from node [] batches = sym (append-nil _)
  lookup-group_items_from node (item ∷ items) batches =
      lookup-group_items_from node items (grouped_one item batches)
      ∙ ap (λ ops. ops ++ operations_for node items) (lookup-grouped_one node item batches)
      ∙ append_assoc (or_empty (lookup node batches)) _ _

  -- The batch of a node holds the operations of the readable items for the node, each one and no other,
  -- in the order of the buffer.
  pub lookup-group_items :
      (node : String) (items : List String)
      → or_empty (lookup node (group_items world items [])) ≡ operations_for node items
  unfolding lookup
  lookup-group_items node items = lookup-group_items_from node items []
