-- ===== src/Cluster/Retries.antt =====
-- The retries of `send_batch_with_retry` over the network: how often a node takes the batch.
use tantylla.Base.{
  ℕ, zero, suc, ◌+◌, ◌≤◌, ◌<◌, ◌≡◌, sym, ap, ◌∙◌, subst, String, Bool, true, false, Option, none,
  some, inl, inr, List, arith, ◌==◌,
}
use tantylla.Base.Assoc.{lookup}
use tantylla.Indexer.{IndexOperation, IndexBatchResponse}
use tantylla.Json.Deltas.{JsonOps}
use tantylla.Engine.Index.{Tantivy}
use tantylla.Engine.State.{Engine}
use tantylla.Engine.Batch.{process_batch}
use tantylla.Batcher.Service.{
  World, Service, BatchItem, SendResult, ok, err, address_of, send_attempts, send_batch_with_retry,
}
use tantylla.Batcher.Retry.{send_attempts-err}
use tantylla.Batcher.Delivery.{SendResult-cases}
use tantylla.Cluster.Ingest.{
  Fate, not_sent, reply_lost, answered, Nodes, is_some, handled, delivered, send, network, Has,
  Has-acted, Has-send_other, handled-takes,
}

module _ (json : JsonOps) (tantivy : Tantivy) (error_text no_reply no_node : String)
    (item_to_json : BatchItem → Option String) (item_of_json : String → Option BatchItem)
    (fates : ℕ → Fate) (activity : ℕ → String → Engine tantivy → Engine tantivy) where
  abbrev State : Type 0
  State = Nodes json tantivy error_text no_reply no_node

  abbrev net : World
  net = network json tantivy error_text no_reply no_node item_to_json item_of_json fates activity

  abbrev HasAt : String → List IndexOperation → Engine tantivy → ℕ → Bool → State → Type 0
  HasAt = Has json tantivy error_text no_reply no_node item_to_json item_of_json fates activity

  -- A call that fails leads to the next attempt: the pause between them changes no node by itself.
  attempts_after_error :
      (s : Service) (address : String) (ops : List IndexOperation) (left attempt : ℕ)
      (last : Option String) (nodes : State) (x : String)
      → (net.try_send_batch address ops nodes).0 ≡ err x
      → send_attempts net s address ops (suc left) attempt last nodes
        ≡ send_attempts net s address ops left
            (attempt + 1)
            (some x)
            (net.try_send_batch address ops nodes).1
  attempts_after_error s address ops left attempt last nodes x e =
      send_attempts-err net s address ops left attempt last nodes
        (net.try_send_batch address ops nodes).1 x (cc e)
      ∙ ground arith

  module _ (address : String) (ops : List IndexOperation) (before : Engine tantivy) where
    -- What one call does: the node takes the batch once more, or not, and an answer says that it did.
    abbrev Moved : ℕ → SendResult String × State → Type 0
    Moved n r =
        (m : ℕ) × (b : Bool) × HasAt address ops before m b r.1
        × (n ≤ m)
        × (m ≤ suc n)
        × ((a : IndexBatchResponse) → r.0 ≡ ok a → (n < m) × (b ≡ true))

    Moved-handled :
        (n : ℕ) (b : Bool) (nodes : State)
        → HasAt address ops before n b nodes
        → Moved n (
            handled json tantivy error_text no_reply no_node
              (lookup address nodes.engines)
              address
              ops
              nodes)
    Moved-handled n b nodes h =
        let (e, k, replied) =
          handled-takes json tantivy error_text no_reply no_node item_to_json item_of_json fates
            activity address ops before n b nodes h in
        (
          suc n,
          is_some (process_batch json tantivy ops e).1,
          k,
          omega arith,
          omega arith,
          λ a q. (omega arith, replied a q),
        )

    Moved-delivered :
        (fate : Fate) (n : ℕ) (b : Bool) (nodes : State)
        → HasAt address ops before n b nodes
        → Moved n (delivered json tantivy error_text no_reply no_node fate address ops nodes)
    unfolding delivered
    Moved-delivered (not_sent text) n b nodes h = (n, b, h, omega arith, omega arith, λ a q. cc)
    Moved-delivered (reply_lost text) n b nodes h =
        let (m, b', k, low, high, replied) = Moved-handled n b nodes h in
        (m, b', k, low, high, λ a q. cc)
    Moved-delivered answered n b nodes h = Moved-handled n b nodes h

    Moved-send :
        (n : ℕ) (b : Bool) (nodes : State)
        → HasAt address ops before n b nodes
        → Moved n (
            send json tantivy error_text no_reply no_node item_to_json item_of_json fates activity
              address ops nodes)
    unfolding send
    Moved-send n b nodes h = Moved-delivered (fates nodes.calls) n b _ (
        Has-acted json tantivy error_text no_reply no_node item_to_json item_of_json fates activity
          address ops before n b nodes h)

    send_attempts-Has :
        (s : Service) (left attempt : ℕ) (last : Option String) (n : ℕ) (b : Bool) (nodes : State)
        (r : IndexBatchResponse)
        → HasAt address ops before n b nodes
        → (send_attempts net s address ops left attempt last nodes).0 ≡ ok r
        → (m : ℕ) × HasAt address ops before m true
            (send_attempts net s address ops left attempt last nodes).1
          × (n < m)
          × (m ≤ n + left)
    unfolding send_attempts
    send_attempts-Has s zero attempt last n b nodes r h q = cc
    send_attempts-Has s (suc left) attempt last n b nodes r h q =
        let sent =
          send json tantivy error_text no_reply no_node item_to_json item_of_json fates activity
            address ops nodes in
        let (m, b', k, low, high, replied) = Moved-send n b nodes h in
        elim (SendResult-cases sent.0) [
          | inl (a, e) ↦
              let (more, replied_yes) = replied a e in
              rw (e, send_attempts)
                (
                  m,
                  subst (λ c. HasAt address ops before m c sent.1) replied_yes k,
                  more,
                  omega (arith, high),
                )
          | inr (x, e) ↦
              let next = attempts_after_error s address ops left attempt last nodes x e in
              let (i, last_has, above, below) =
                send_attempts-Has s left (attempt + 1) (some x) m b' sent.1 r k
                  (sym (ap (λ t. t.0) next) ∙ q) in
              (
                i,
                subst (λ t. HasAt address ops before i true t.1) (sym next) last_has,
                omega arith,
                omega arith,
              )
        ]

    -- A batch that is reported as delivered was taken by the engine of its node at least once and at most as
    -- often as there are attempts, the last time with an answer.
    pub send_batch_with_retry-Has :
        (s : Service) (node : String) (nodes : State) (r : IndexBatchResponse)
        → address_of node ≡ address
        → HasAt address ops before 0 false nodes
        → (send_batch_with_retry net s node ops nodes).0 ≡ ok r
        → (m : ℕ) × HasAt address ops before m true (send_batch_with_retry net s node ops nodes).1
          × (0 < m)
          × (m ≤ s.max_retry_attempts)
    unfolding send_batch_with_retry
    send_batch_with_retry-Has s node nodes r at h q =
        let (m, k, low, high) =
          send_attempts-Has s s.max_retry_attempts 0 none 0 false nodes r h
            (rw (at, send_batch_with_retry) at q) in
        rw (at, send_batch_with_retry) (m, k, low, omega (arith, high))

  -- The sends to one address do not concern the batch of another.
  send_attempts-other :
      (s : Service) (address other : String) (sent ops : List IndexOperation)
      (before : Engine tantivy) (left attempt : ℕ) (last : Option String) (n : ℕ) (b : Bool)
      (nodes : State)
      → (address == other) ≡ false
      → HasAt other ops before n b nodes
      → HasAt other ops before n b (send_attempts net s address sent left attempt last nodes).1
  unfolding send_attempts
  send_attempts-other s address other sent ops before zero attempt last n b nodes apart h = h
  send_attempts-other s address other sent ops before (suc left) attempt last n b nodes apart h =
      let call =
        send json tantivy error_text no_reply no_node item_to_json item_of_json fates activity
          address sent nodes in
      let k =
        Has-send_other json tantivy error_text no_reply no_node item_to_json item_of_json fates
          activity address other sent ops before n b nodes apart h in
      elim (SendResult-cases call.0) [
        | inl (a, e) ↦ rw (e, send_attempts) k
        | inr (x, e) ↦
            let rest =
              send_attempts-other s address other sent ops before left (attempt + 1) (some x) n b
                call.1 apart k in
            subst (λ t. HasAt other ops before n b t.1)
              (sym (attempts_after_error s address sent left attempt last nodes x e)) rest
      ]

  pub send_batch_with_retry-other :
      (s : Service) (node other : String) (sent ops : List IndexOperation) (before : Engine tantivy)
      (n : ℕ) (b : Bool) (nodes : State)
      → (address_of node == other) ≡ false
      → HasAt other ops before n b nodes
      → HasAt other ops before n b (send_batch_with_retry net s node sent nodes).1
  unfolding send_batch_with_retry
  send_batch_with_retry-other s node other sent ops before n b nodes apart h =
      send_attempts-other s (address_of node) other sent ops before s.max_retry_attempts 0 none n b
        nodes apart h
