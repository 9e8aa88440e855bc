-- ===== src/Cluster/Ingest.antt =====
-- The batch service on nodes that run the engine, over a network that may lose a call or its reply.
-- `try_send_batch` of rust/ingestor/src/batch/service.rs meets `index_batch` of
-- rust/node/src/service/core.rs.
use tantylla.Base.{
  ℕ, suc, ◌+◌, ◌%◌, ◌≡◌, refl, ap, ◌∙◌, String, Bool, true, false, Option, none, some, inl, inr,
  List, [], ◌∷◌, map, length, arith, eq_refl, eq_iff, ◌==◌, Bool-cases,
}
use tantylla.Base.Assoc.{lookup, insert, lookup-insert}
use tantylla.Indexer.{IndexOperation, IndexBatchResponse}
use tantylla.Json.Deltas.{JsonOps}
use tantylla.Engine.Index.{Tantivy}
use tantylla.Engine.State.{Engine}
use tantylla.Engine.Batch.{process_batch}
use tantylla.Engine.Counts.{total_mod-process_batch}
use tantylla.Node.Service
use tantylla.Node.Service.{Reply, response, refused, lost}
use tantylla.Batcher.Service.{
  World, Service, BatchItem, SendResult, ok, err, u32_mod, group_items, flush,
}
use tantylla.Batcher.Delivery.{Acknowledges, unreachable, outcome, flush-outcome}

-- What becomes of a call: it does not arrive, it is handled and its reply is lost, or it is answered.
pub data Fate : Type 0 where
  not_sent : String → Fate
  reply_lost : String → Fate
  answered : Fate

abbrev pub is_some {ℓ} : {A : Type ℓ} → Option A → Bool
is_some none = false
is_some (some a) = true

module _ (json : JsonOps) (tantivy : Tantivy) (error_text no_reply no_node : String) where
  -- The engines by address, and the number of calls so far.
  pub record Nodes : Type 0 where
    pub engines : List (String × Engine tantivy)
    pub calls : ℕ

  abbrev result_of : Reply IndexBatchResponse → SendResult String
  result_of (response r) = ok r
  result_of (refused status) = err status.message
  result_of lost = err no_reply

  -- The node at the address handles the batch.
  unfoldable pub handled :
      Option (Engine tantivy) → String → List IndexOperation → Nodes → SendResult String × Nodes
  handled none address ops nodes = (err no_node, nodes)
  handled (some engine) address ops nodes =
      let (engine', reply) = Service.index_batch error_text json tantivy ops engine in
      (result_of reply, record nodes { engines = insert address engine' nodes.engines })

  unfoldable pub delivered : Fate → String → List IndexOperation → Nodes → SendResult String × Nodes
  unfolding handled
  delivered (not_sent text) address ops nodes = (err text, nodes)
  delivered (reply_lost text) address ops nodes =
      (err text, (handled (lookup address nodes.engines) address ops nodes).1)
  delivered answered address ops nodes = handled (lookup address nodes.engines) address ops nodes

  -- The fate of each call is given beforehand, and so is what becomes of each engine before the call: its
  -- commits, reloads and prunings, and the batches of others.
  module _ (item_to_json : BatchItem → Option String) (item_of_json : String → Option BatchItem)
      (fates : ℕ → Fate) (activity : ℕ → String → Engine tantivy → Engine tantivy) where
    abbrev pub acted : Nodes → Nodes
    acted nodes = record {
      engines =
          map (λ (address, engine). (address, activity nodes.calls address engine)) nodes.engines;
      calls = nodes.calls + 1;
    }

    unfoldable pub send : String → List IndexOperation → Nodes → SendResult String × Nodes
    unfolding delivered
    send address ops nodes = delivered (fates nodes.calls) address ops (acted nodes)

    abbrev pub network : World
    network = record {
      State = Nodes;
      item_to_json = item_to_json;
      item_of_json = item_of_json;
      try_send_batch = send;
      sleep = λ ms nodes. nodes;
    }

    handled-counted :
        (engine : Option (Engine tantivy)) (address : String) (ops : List IndexOperation)
        (nodes : Nodes) (r : IndexBatchResponse)
        → (handled engine address ops nodes).0 ≡ ok r
        → (r.processed_count + r.skipped_count) % u32_mod ≡ length ops % u32_mod
    unfolding handled Service.index_batch
    handled-counted none address ops nodes r h = cc
    handled-counted (some engine) address ops nodes r h =
        ground (arith, total_mod-process_batch json tantivy ops engine {r = r})

    delivered-counted :
        (fate : Fate) (address : String) (ops : List IndexOperation) (nodes : Nodes)
        (r : IndexBatchResponse)
        → (delivered fate address ops nodes).0 ≡ ok r
        → (r.processed_count + r.skipped_count) % u32_mod ≡ length ops % u32_mod
    unfolding delivered
    delivered-counted (not_sent text) address ops nodes r h = cc
    delivered-counted (reply_lost text) address ops nodes r h = cc
    delivered-counted answered address ops nodes r h =
        handled-counted (lookup address nodes.engines) address ops nodes r h

    network-Acknowledges : Acknowledges network
    unfolding send
    network-Acknowledges address ops nodes r h =
        delivered-counted (fates nodes.calls) address ops (acted nodes) r h

    pub flush-network :
        (s : Service) (nodes : Nodes)
        → (flush network s nodes).0
          ≡ outcome network (unreachable network s (group_items network s.buffer []) nodes)
    flush-network s nodes = flush-outcome network s nodes network-Acknowledges

    -- How an engine came from another one: by the activity at its address, and by taking a batch a number of
    -- times, the last time with or without an answer.
    pub data History (address : String) (ops : List IndexOperation) (before : Engine tantivy)
        : ℕ → Bool → Engine tantivy → Type 0 where
      untouched : History address ops before 0 false before
      acts :
          {n : ℕ} {b : Bool} {e : Engine tantivy} (call : ℕ)
          → History address ops before n b e
          → History address ops before n b (activity call address e)
      takes :
          {n : ℕ} {b : Bool} {e : Engine tantivy}
          → History address ops before n b e
          → History address ops before
              (suc n)
              (is_some (process_batch json tantivy ops e).1)
              (process_batch json tantivy ops e).0

    -- The engine at the address has this history.
    abbrev pub Has : String → List IndexOperation → Engine tantivy → ℕ → Bool → Nodes → Type 0
    Has address ops before n b nodes =
        (e : Engine tantivy) × (lookup address nodes.engines ≡ some e)
        × History address ops before n b e

    lookup-acted :
        (call : ℕ) (address : String) (engines : List (String × Engine tantivy))
        (e : Engine tantivy)
        → lookup address engines ≡ some e
        → lookup address (map (λ (a, engine). (a, activity call a engine)) engines)
          ≡ some (activity call address e)
    unfolding lookup
    lookup-acted call address [] e h = cc
    lookup-acted call address ((a, engine) ∷ engines) e h = elim (Bool-cases (a == address)) [
      | inl q ↦
          let same : a ≡ address = ground (arith, q, eq_iff a address) in
          let found : engine ≡ e = ground (arith, q, h) in rw q (ap some (cc (same, found)))
      | inr q ↦ rw q (lookup-acted call address engines e (rw q at h))
    ]

    pub Has-acted :
        (address : String) (ops : List IndexOperation) (before : Engine tantivy) (n : ℕ) (b : Bool)
        (nodes : Nodes)
        → Has address ops before n b nodes
        → Has address ops before n b (acted nodes)
    Has-acted address ops before n b nodes (e, held, h) = (
      activity nodes.calls address e,
      lookup-acted nodes.calls address nodes.engines e held,
      acts nodes.calls h,
    )

    -- A call for another address.
    lookup-handled :
        (engine : Option (Engine tantivy)) (address other : String) (ops : List IndexOperation)
        (nodes : Nodes)
        → (address == other) ≡ false
        → lookup other (handled engine address ops nodes).1.engines ≡ lookup other nodes.engines
    unfolding handled
    lookup-handled none address other ops nodes h = refl
    lookup-handled (some engine) address other ops nodes h = ground (
      arith,
      h,
      lookup-insert address other (Service.index_batch error_text json tantivy ops engine).0
          nodes.engines,
    )

    lookup-delivered :
        (fate : Fate) (address other : String) (ops : List IndexOperation) (nodes : Nodes)
        → (address == other) ≡ false
        → lookup other (delivered fate address ops nodes).1.engines ≡ lookup other nodes.engines
    unfolding delivered
    lookup-delivered (not_sent text) address other ops nodes h = refl
    lookup-delivered (reply_lost text) address other ops nodes h =
        lookup-handled (lookup address nodes.engines) address other ops nodes h
    lookup-delivered answered address other ops nodes h =
        lookup-handled (lookup address nodes.engines) address other ops nodes h

    pub Has-send_other :
        (address other : String) (sent ops : List IndexOperation) (before : Engine tantivy) (n : ℕ)
        (b : Bool) (nodes : Nodes)
        → (address == other) ≡ false
        → Has other ops before n b nodes
        → Has other ops before n b (send address sent nodes).1
    unfolding send
    Has-send_other address other sent ops before n b nodes apart h =
        let (e, held, k) = Has-acted other ops before n b nodes h in
        (e, lookup-delivered (fates nodes.calls) address other sent (acted nodes) apart ∙ held, k)

    -- A call for this address.
    abbrev After : String → List IndexOperation → Engine tantivy → ℕ → Nodes → Type 0
    After address ops before n nodes = (b : Bool) × Has address ops before n b nodes

    pub handled-takes :
        (address : String) (ops : List IndexOperation) (before : Engine tantivy) (n : ℕ) (b : Bool)
        (nodes : Nodes)
        → Has address ops before n b nodes
        → (e : Engine tantivy) × Has address ops before
            (suc n)
            (is_some (process_batch json tantivy ops e).1)
            (handled (lookup address nodes.engines) address ops nodes).1
          × ((r : IndexBatchResponse)
              → (handled (lookup address nodes.engines) address ops nodes).0 ≡ ok r
              → is_some (process_batch json tantivy ops e).1 ≡ true)
    unfolding handled Service.index_batch
    handled-takes address ops before n b nodes (e, held, h) =
        rw (held, handled)
          (
            e,
            (
              (process_batch json tantivy ops e).0,
              lookup-insert address address (process_batch json tantivy ops e).0 nodes.engines
                  ∙ rw (eq_refl address) refl,
              takes h,
            ),
            λ r q. replied (process_batch json tantivy ops e).1 r q,
          )
      where
        replied :
            (o : Option IndexBatchResponse) (r : IndexBatchResponse)
            → result_of (Service.reply_of_batch error_text o) ≡ ok r
            → is_some o ≡ true
        replied none r q = cc
        replied (some a) r q = refl
