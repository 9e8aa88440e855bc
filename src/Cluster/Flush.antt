-- ===== src/Cluster/Flush.antt =====
-- A whole flush over the network: what its nodes' engines went through.
use tantylla.Base.{
  ℕ, ◌<◌, ◌≤◌, ◌≡◌, refl, sym, ◌∙◌, String, Bool, true, false, Option, none, some, List, [], ◌∷◌,
  inl, inr, All, arith, ◌==◌, eq_iff,
}
use tantylla.Base.Assoc.{lookup}
use tantylla.Indexer.{IndexOperation}
use tantylla.Json.Deltas.{JsonOps}
use tantylla.Engine.Index.{Tantivy}
use tantylla.Engine.State.{Engine}
use tantylla.Batcher.Service.{
  World, Service, BatchItem, NodeBatches, Delivered, address_of, group_items, send_batch_with_retry,
  record_result, send_batches, flush_items, flush,
}
use tantylla.Batcher.Delivery.{SendResult-cases, unreachable, outcome}
use tantylla.Cluster.Ingest.{Fate, Nodes, network, flush-network, Has, untouched}
use tantylla.Cluster.Retries.{send_batch_with_retry-Has, send_batch_with_retry-other}

-- No two batches are for one address.
abbrev pub DistinctAddresses : NodeBatches → Type 0
DistinctAddresses [] = Unit
DistinctAddresses (b ∷ batches) =
    All (λ (c : String × List IndexOperation). (address_of b.0 == address_of c.0) ≡ false) batches
    × DistinctAddresses batches

module _ (json : JsonOps) (tantivy : Tantivy) (error_text no_reply no_node : String)
    (item_to_json : BatchItem → Option String) (item_of_json : String → Option BatchItem)
    (fates : ℕ → Fate) (activity : ℕ → String → Engine tantivy → Engine tantivy) where
  abbrev State : Type 0
  State = Nodes json tantivy error_text no_reply no_node

  abbrev net : World
  net = network json tantivy error_text no_reply no_node item_to_json item_of_json fates activity

  abbrev HasAt : String → List IndexOperation → Engine tantivy → ℕ → Bool → State → Type 0
  HasAt = Has json tantivy error_text no_reply no_node item_to_json item_of_json fates activity

  module _ (before : String → Engine tantivy) where
    -- The node of a batch has an engine.
    abbrev pub IsReady : State → String × List IndexOperation → Type 0
    IsReady nodes (node, ops) = lookup (address_of node) nodes.engines ≡ some (before node)

    -- The node's engine has taken the batch.
    abbrev pub IsTaken : Service → State → String × List IndexOperation → Type 0
    IsTaken s nodes (node, ops) =
        (m : ℕ) × HasAt (address_of node) ops (before node) m true nodes
        × (0 < m)
        × (m ≤ s.max_retry_attempts)

    -- The engine of a batch that has not been sent.
    abbrev IsUntouched : State → String × List IndexOperation → Type 0
    IsUntouched nodes (node, ops) = HasAt (address_of node) ops (before node) 0 false nodes

    All-IsUntouched :
        (batches : NodeBatches) (nodes : State)
        → All (IsReady nodes) batches
        → All (IsUntouched nodes) batches
    All-IsUntouched [] nodes a = tt
    All-IsUntouched ((node, ops) ∷ batches) nodes a =
        ((before node, a.0, untouched), All-IsUntouched batches nodes a.1)

    All-other :
        (s : Service) (node : String) (ops : List IndexOperation) (batches : NodeBatches)
        (nodes : State)
        → All
            (λ (c : String × List IndexOperation). (address_of node == address_of c.0) ≡ false)
            batches
        → All (IsUntouched nodes) batches
        → All (IsUntouched (send_batch_with_retry net s node ops nodes).1) batches
    All-other s node ops [] nodes a h = tt
    All-other s node ops ((other, b) ∷ batches) nodes a h = (
      send_batch_with_retry-other json tantivy error_text no_reply no_node item_to_json item_of_json
          fates activity s node (address_of other) ops b (before other) 0 false nodes a.0 h.0,
      All-other s node ops batches nodes a.1 h.1,
    )

    -- The sends of other batches.
    send_batches-other :
        (s : Service) (node : String) (ops : List IndexOperation) (m : ℕ) (batches : NodeBatches)
        (d : Delivered) (nodes : State)
        → All
            (λ (c : String × List IndexOperation). (address_of node == address_of c.0) ≡ false)
            batches
        → HasAt (address_of node) ops (before node) m true nodes
        → HasAt (address_of node) ops (before node) m true (send_batches net s batches d nodes).1
    unfolding send_batches
    send_batches-other s node ops m [] d nodes a h = h
    send_batches-other s node ops m ((other, b) ∷ batches) d nodes a h =
        let sent = send_batch_with_retry net s other b nodes in
        send_batches-other s node ops m batches (record_result net other b sent.0 d) sent.1 a.1 (
          send_batch_with_retry-other json tantivy error_text no_reply no_node item_to_json
            item_of_json fates activity s other (address_of node) b ops (before node) m true nodes
            (ground (
              arith,
              a.0,
              eq_iff (address_of node) (address_of other),
              eq_iff (address_of other) (address_of node),
            ))
            h)

    send_batches-IsTaken :
        (s : Service) (batches : NodeBatches) (d : Delivered) (nodes : State)
        → DistinctAddresses batches
        → All (IsUntouched nodes) batches
        → unreachable net s batches nodes ≡ []
        → All (IsTaken s (send_batches net s batches d nodes).1) batches
    unfolding send_batches
    send_batches-IsTaken s [] d nodes distinct h reached = tt
    send_batches-IsTaken s ((node, ops) ∷ batches) d nodes distinct h reached =
        let sent = send_batch_with_retry net s node ops nodes in
        let next = record_result net node ops sent.0 d in
        elim (SendResult-cases sent.0) [
          | inr (e, q) ↦ absurd (cc (rw (q, unreachable) at reached))
          | inl (r, q) ↦
              let (m, k, low, high) =
                send_batch_with_retry-Has json tantivy error_text no_reply no_node item_to_json
                  item_of_json fates activity (address_of node) ops (before node) s node nodes r
                  refl h.0 q in
              (
                (m, send_batches-other s node ops m batches next sent.1 distinct.0 k, low, high),
                send_batches-IsTaken s batches next sent.1 distinct.1
                    (All-other s node ops batches nodes distinct.0 h.1)
                    (rw (q, unreachable) at reached),
              )
        ]

    flush-send_batches :
        (s : Service) (nodes : State)
        → (flush net s nodes).2
          ≡ (send_batches net s
              (group_items net s.buffer [])
              (record { node_max_writetimes = []; failed_nodes = [] })
              nodes).1
    unfolding flush flush_items group_items send_batches
    flush-send_batches s nodes = by_cases s.buffer
      where
        by_cases :
            (items : List String)
            → (flush_items net items s nodes).2
              ≡ (send_batches net s
                  (group_items net items [])
                  (record { node_max_writetimes = []; failed_nodes = [] })
                  nodes).1
        by_cases [] = refl
        by_cases (item ∷ items) = refl

    outcome-none : (failed : List String) → outcome net failed ≡ none → failed ≡ []
    outcome-none [] h = refl
    outcome-none (n ∷ ns) h = cc

    -- A flush over the network that reports success, whichever calls and replies were lost on the way and
    -- whatever the nodes did between the calls, commits, reloads, prunings and the batches of others included:
    -- the engine of every node that has a batch has taken the batch at least once and at most as often as
    -- there are attempts, the last time with an answer, and nothing else of this flush. The addresses of the
    -- batches are distinct, and there is a node at each.
    pub flush-IsTaken :
        (s : Service) (nodes : State)
        → DistinctAddresses (group_items net s.buffer [])
        → All (IsReady nodes) (group_items net s.buffer [])
        → (flush net s nodes).0 ≡ none
        → All (IsTaken s (flush net s nodes).2) (group_items net s.buffer [])
    flush-IsTaken s nodes distinct ready success = rw (flush-send_batches s nodes) (
        send_batches-IsTaken s (group_items net s.buffer []) _ nodes distinct
          (All-IsUntouched (group_items net s.buffer []) nodes ready)
          (outcome-none _ (
            sym (
              flush-network json tantivy error_text no_reply no_node item_to_json item_of_json fates
                activity s nodes)
            ∙ success)))
