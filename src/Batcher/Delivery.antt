-- ===== src/Batcher/Delivery.antt =====
-- What `flush` reports, of the answers of the nodes.
use tantylla.Base.{
  ℕ, zero, suc, ◌+◌, ◌%◌, ◌-◌, ◌*◌, ◌^◌, ◌≡◌, refl, sym, ap, ◌∙◌, String, Option, none, some, List,
  [], ◌∷◌, ◌++◌, length, ltb, if◌then◌else◌, arith, inl, inr, ◌⊎◌,
}
use mathlib.Core.List.{append-nil, append_assoc}
use tantylla.Indexer.{IndexOperation, IndexBatchResponse}
use tantylla.Batcher.Service.{
  u32_mod, World, Service, SendResult, ok, err, NodeBatches, Delivered, BatchFlushError,
  BatchSendError, failed_to_flush, group_items, address_of, send_attempts, send_batch_with_retry,
  record_result, send_batches, flush_result, flush_items, flush,
}

pub SendResult-cases {ℓ} :
    {E : Type ℓ} (x : SendResult E)
    → ((r : IndexBatchResponse) × (x ≡ ok r)) ⊎ ((e : E) × (x ≡ err e))
SendResult-cases (ok r) = inl (r, refl)
SendResult-cases (err e) = inr (e, refl)

module _ (world : World) where
  open world use {State, item_of_json, try_send_batch, sleep}

  -- A node that answers has counted each operation once, in u32 counters.
  abbrev pub Acknowledges : Type 0
  Acknowledges =
      (address : String) (ops : List IndexOperation) (w : State) (r : IndexBatchResponse)
      → (try_send_batch address ops w).0 ≡ ok r
      → (r.processed_count + r.skipped_count) % u32_mod ≡ length ops % u32_mod

  -- The nodes, in order, whose batch could not be sent.
  abbrev pub unreachable : Service → NodeBatches → State → List String
  unreachable s [] w = []
  unreachable s ((node, ops) ∷ batches) w =
      let sent = send_batch_with_retry world s node ops w in
      let rest = unreachable s batches sent.1 in elim sent.0 [ ok r ↦ rest | err e ↦ node ∷ rest ]

  send_attempts-acknowledged :
      (s : Service) (address : String) (ops : List IndexOperation) (left attempt : ℕ)
      (last : Option String) (w : State) (r : IndexBatchResponse)
      → Acknowledges
      → (send_attempts world s address ops left attempt last w).0 ≡ ok r
      → (r.processed_count + r.skipped_count) % u32_mod ≡ length ops % u32_mod
  unfolding send_attempts
  send_attempts-acknowledged s address ops zero attempt last w r ack h = cc
  send_attempts-acknowledged s address ops (suc left) attempt last w r ack h =
      let sent = try_send_batch address ops w in
      elim (SendResult-cases sent.0) [
        | inl (r', q) ↦ ack address ops w r (ground (arith, q, h))
        | inr (m, q) ↦
            send_attempts-acknowledged s address ops left (attempt + 1) (some m)
              (if ltb attempt (s.max_retry_attempts - 1)
                then sleep (s.retry_backoff_ms * 2 ^ attempt) sent.1
                else sent.1)
              r ack (rw (q, send_attempts) at h)
      ]

  record_result-failed :
      (node : String) (ops : List IndexOperation) (r : IndexBatchResponse) (d : Delivered)
      → (r.processed_count + r.skipped_count) % u32_mod ≡ length ops % u32_mod
      → (record_result world node ops (ok r) d).failed_nodes ≡ d.failed_nodes
  unfolding record_result
  record_result-failed node ops r d h = ground arith

  record_result-unreachable :
      (node : String) (ops : List IndexOperation) (e : BatchSendError) (d : Delivered)
      (rest : List String)
      → (record_result world node ops (err e) d).failed_nodes ++ rest
        ≡ d.failed_nodes ++ (node ∷ rest)
  unfolding record_result
  record_result-unreachable node ops e d rest = append_assoc d.failed_nodes (node ∷ []) rest

  send_batch_with_retry-acknowledged :
      (s : Service) (node : String) (ops : List IndexOperation) (w : State) (r : IndexBatchResponse)
      → Acknowledges
      → (send_batch_with_retry world s node ops w).0 ≡ ok r
      → (r.processed_count + r.skipped_count) % u32_mod ≡ length ops % u32_mod
  unfolding send_batch_with_retry
  send_batch_with_retry-acknowledged s node ops w r ack h =
      send_attempts-acknowledged s (address_of node) ops s.max_retry_attempts 0 none w r ack h

  failed_nodes-send_batches :
      (s : Service) (batches : NodeBatches) (d : Delivered) (w : State)
      → Acknowledges
      → (send_batches world s batches d w).0.failed_nodes
        ≡ d.failed_nodes ++ unreachable s batches w
  unfolding send_batches
  failed_nodes-send_batches s [] d w ack = sym (append-nil _)
  failed_nodes-send_batches s ((node, ops) ∷ batches) d w ack =
      let sent = send_batch_with_retry world s node ops w in
      let rest = unreachable s batches sent.1 in
      failed_nodes-send_batches s batches (record_result world node ops sent.0 d) sent.1 ack
      ∙ (elim (SendResult-cases sent.0) [
        | inl (r, q) ↦
            rw (q, unreachable)
              (ap (λ f. f ++ rest)
                (record_result-failed node ops r d
                  (send_batch_with_retry-acknowledged s node ops w r ack q)))
        | inr (e, q) ↦ rw (q, unreachable) (record_result-unreachable node ops e d rest)
      ])

  -- The result of a flush, of the nodes that failed.
  abbrev pub outcome : List String → Option BatchFlushError
  outcome [] = none
  outcome (n ∷ ns) =
      some (record { failed_nodes = n ∷ ns; message = failed_to_flush (length (n ∷ ns)) })

  outcome-flush_result : (d : Delivered) → flush_result world d ≡ outcome d.failed_nodes
  unfolding flush_result
  outcome-flush_result d = by_cases d.failed_nodes
    where
      by_cases :
          (ns : List String)
          → (elim ns [
            | [] ↦ none
            | n ∷ ms ↦
                some (record { failed_nodes = n ∷ ms; message = failed_to_flush (length (n ∷ ms)) })
          ])
            ≡ outcome ns
      by_cases [] = refl
      by_cases (n ∷ ms) = refl

  -- The batches of a flush, from the start of its loop.
  abbrev flushed : Service → State → Delivered
  flushed s w =
      (send_batches world s (group_items world s.buffer [])
        (record { node_max_writetimes = []; failed_nodes = [] }) w).0

  flush-flushed : (s : Service) (w : State) → (flush world s w).0 ≡ flush_result world (flushed s w)
  unfolding flush flush_items group_items send_batches flush_result
  flush-flushed s w = by_cases s.buffer
    where
      by_cases :
          (items : List String)
          → (flush_items world items s w).0
            ≡ flush_result world
                (send_batches world s
                  (group_items world items [])
                  (record { node_max_writetimes = []; failed_nodes = [] })
                  w).0
      by_cases [] = refl
      by_cases (item ∷ items) = refl

  -- Against nodes that acknowledge every operation of a batch that they answer, a flush succeeds when
  -- every node of the buffer's items is reached, and otherwise names those that are not, in order.
  pub flush-outcome :
      (s : Service) (w : State)
      → Acknowledges
      → (flush world s w).0 ≡ outcome (unreachable s (group_items world s.buffer []) w)
  flush-outcome s w ack =
      flush-flushed s w
      ∙ outcome-flush_result (flushed s w)
      ∙ ap outcome (failed_nodes-send_batches s (group_items world s.buffer []) _ w ack)
