-- ===== src/Cluster/Pipeline.antt =====
-- A change row on its whole way: the router, the batch service, a network that loses calls and replies, and
-- the engine of its node.
use tantylla.Base.{
  ℕ, suc, ◌<◌, ◌≡◌, sym, ap, ◌∙◌, subst, String, false, Option, none, some, inl, inr, Bool-cases,
  List, [], ◌∷◌, ◌++◌, All, length, ◌==◌, eq_iff, eq_refl, if◌then◌else◌, arith,
}
use tantylla.Base.Assoc.{lookup}
use tantylla.Indexer.{OpType, IndexOperation, CollectionDelta}
use tantylla.Json.Deltas.{JsonOps}
use tantylla.Engine.Index.{Tantivy}
use tantylla.Engine.State.{Engine}
use tantylla.Batcher.Service.{World, Service, BatchItem, NodeBatches, or_empty, group_items, flush}
use tantylla.Routing.Forward.{Rows, Router, target_node, route_forward}
use tantylla.Routing.Operations.{Carries, row_item, row_operation, route_forward-row_operation}
use tantylla.Cluster.Ingest.{Fate, Nodes, network}
use tantylla.Cluster.Flush.{DistinctAddresses, IsReady, IsTaken, flush-IsTaken}

-- What holds of all batches holds of the one that is looked up.
All-lookup {ℓ} :
    (P : String × List IndexOperation → Type ℓ) (node : String) (ops : List IndexOperation)
    (batches : NodeBatches)
    → All P batches
    → lookup node batches ≡ some ops
    → P (node, ops)
unfolding lookup
All-lookup P node ops [] a h = cc
All-lookup P node ops ((other, b) ∷ batches) a h = elim (Bool-cases (other == node)) [
  | inl e ↦
      let same : (other, b) ≡ (node, ops) = ground (arith, h, e, eq_iff other node) in
      subst P same a.0
  | inr e ↦ All-lookup P node ops batches a.1 (ground (arith, h, e))
]

lookup_or_empty :
    (o : Option (List IndexOperation)) (xs : List IndexOperation) (op : IndexOperation)
    → or_empty o ≡ xs ++ op ∷ []
    → o ≡ some (xs ++ op ∷ [])
lookup_or_empty none [] op h = cc
lookup_or_empty none (x ∷ xs) op h = cc
lookup_or_empty (some ys) xs op h = ap some h

module _ (json : JsonOps) (tantivy : Tantivy) (error_text no_reply no_node : String)
    (item_to_json : BatchItem → Option String) (item_of_json : String → Option BatchItem)
    (fates : ℕ → Fate) (activity : ℕ → String → Engine tantivy → Engine tantivy) where
  abbrev State : Type 0
  State = Nodes json tantivy error_text no_reply no_node

  abbrev net : World
  net = network json tantivy error_text no_reply no_node item_to_json item_of_json fates activity

  module _ (before : String → Engine tantivy) where
    abbrev Ready : State → String × List IndexOperation → Type 0
    Ready =
        IsReady json tantivy error_text no_reply no_node item_to_json item_of_json fates activity
          before

    abbrev Taken : Service → State → String × List IndexOperation → Type 0
    Taken =
        IsTaken json tantivy error_text no_reply no_node item_to_json item_of_json fates activity
          before

    -- A row that is routed without backpressure, with room in the buffer, and a flush after it that reports
    -- success over the network, whichever calls and replies were lost and whatever the nodes did in between:
    -- the engine of the row's node has taken a batch whose last operation is the row's, at least once and at
    -- most as often as there are attempts, the last time with an answer. The operation has the full primary
    -- key as its id, the code of its type, the microseconds of the row's time, the row's TTL, the post-image or
    -- the change with its deltas, and the partition key. The row has a node and a time, and its item can be
    -- written as JSON and read back; the batches of the flush have distinct addresses with a node at each.
    pub route_forward-Taken :
        (rows : Rows) (router : Router) (row : rows.Row) (op_type : OpType) (node : String)
        (time : ℕ × ℕ) (payload : String) (deltas : List CollectionDelta) (s s' : Service)
        (nodes nodes' : State) (text : String)
        → s.last_flush_failed ≡ false
        → suc (length s.buffer) < s.batch_limit
        → target_node rows router row ≡ some node
        → rows.unix_time row ≡ some time
        → Carries rows row op_type payload deltas
        → item_to_json (row_item rows router row op_type node time payload deltas) ≡ some text
        → item_of_json text ≡ some (row_item rows router row op_type node time payload deltas)
        → route_forward rows net router row op_type s nodes ≡ (none, s', nodes')
        → DistinctAddresses (group_items net s'.buffer [])
        → All (Ready nodes') (group_items net s'.buffer [])
        → (flush net s' nodes').0 ≡ none
        → (ops : List IndexOperation) × Taken s'
            (flush net s' nodes').2
            (node, ops ++ row_operation rows router row op_type node time payload deltas ∷ [])
    route_forward-Taken rows router row op_type node time payload deltas s s' nodes nodes' text
          clear room placed timed carries written read routed distinct ready success =
        let op = row_operation rows router row op_type node time payload deltas in
        let ops = or_empty (lookup node (group_items net s.buffer [])) in
        let q =
          route_forward-row_operation rows router row op_type node time payload deltas net s nodes
            text node clear room placed timed carries written read in
        let grouped : or_empty (lookup node (group_items net s'.buffer [])) ≡ ops ++ op ∷ [] =
          ap (λ r. or_empty (lookup node (group_items net r.1.buffer []))) (sym routed)
          ∙ q.2
          ∙ ap (λ b. ops ++ (if b then op ∷ [] else [])) (eq_refl node) in
        (
          ops,
          All-lookup _ node (ops ++ op ∷ []) (group_items net s'.buffer [])
              (flush-IsTaken json tantivy error_text no_reply no_node item_to_json item_of_json
                fates activity before s' nodes' distinct ready success)
              (lookup_or_empty (lookup node (group_items net s'.buffer [])) ops op grouped),
        )
