-- ===== src/Batcher/Service.antt =====
-- The service: its buffer, the grouping by node, the sends with their retries, and the flag that the
-- ticker sets when a flush fails. Texts of errors are the values that they are formatted from.
use Prim.Native.String
use tantylla.Base.{
  ℕ, zero, suc, ◌+◌, ◌-◌, ◌*◌, ◌%◌, ◌^◌, max, String, Bool, true, false, Option, none, some, List,
  [], ◌∷◌, ◌++◌, length, ltb, leb, if◌then◌else◌,
}
use text.Mathlib.Text.{starts_with}
use tantylla.Base.Int.{ℤ}
use tantylla.Base.Assoc.{update}
use tantylla.Indexer.{CollectionDelta, IndexOperation, IndexBatchResponse}

pub record BatchItem : Type 0 where
  pub target_node : String
  pub id : String
  pub op_type : ℕ
  pub writetime : ℕ
  pub cdc_ttl : Option ℤ
  pub payload_json : String
  pub collection_deltas : List CollectionDelta
  pub partition_key : Option String

pub data SendResult {ℓ} (E : Type ℓ) : Type ℓ where
  ok : IndexBatchResponse → SendResult E
  err : E → SendResult E

-- What the service does not implement: the JSON of items, one call of a node with its connection, and
-- the pause between two calls.
pub record World : Type 1 where
  pub State : Type 0
  pub item_to_json : BatchItem → Option String
  pub item_of_json : String → Option BatchItem
  pub try_send_batch : String → List IndexOperation → State → SendResult String × State
  pub sleep : ℕ → State → State

-- "Failed after {attempts} attempts. Last error: {last_error}".
pub record BatchSendError : Type 0 where
  pub attempts : ℕ
  pub last_error : Option String

pub data FlushMessage : Type 0 where
  backpressure_active : FlushMessage
  failed_to_flush : ℕ → FlushMessage
  failed_to_flush_buffer : FlushMessage

pub record BatchFlushError : Type 0 where
  pub failed_nodes : List String
  pub message : FlushMessage

pub record Service : Type 0 where
  pub batch_limit : ℕ
  pub buffer : List String
  pub max_retry_attempts : ℕ
  pub retry_backoff_ms : ℕ
  pub last_flush_failed : Bool

unfoldable pub new_service : Service
new_service = record {
  batch_limit = 250;
  buffer = [];
  max_retry_attempts = 3;
  retry_backoff_ms = 100;
  last_flush_failed = false;
}

unfoldable pub operation_of : BatchItem → IndexOperation
operation_of i = record {
  id = i.id;
  op_type = i.op_type;
  writetime = i.writetime;
  cdc_ttl = i.cdc_ttl;
  payload_json = i.payload_json;
  collection_deltas = i.collection_deltas;
  partition_key = i.partition_key;
}

-- The operations of each node, in the order of the buffer. The order of the nodes is not that of the
-- hash map: a node stands where its first item stood.
abbrev pub NodeBatches : Type 0
NodeBatches = List (String × List IndexOperation)

abbrev pub or_empty {ℓ} : {A : Type ℓ} → Option (List A) → List A
or_empty none = []
or_empty (some xs) = xs

-- `node_batches.entry(target_node).or_default().push(operation)`
unfoldable pub push_operation : BatchItem → NodeBatches → NodeBatches
unfolding operation_of
push_operation i batches = update i.target_node (λ o. or_empty o ++ operation_of i ∷ []) batches

unfoldable pub address_of : String → String
address_of node = if starts_with node "http" then node else String.◌++◌ "http://" node

abbrev pub u32_mod : ℕ
u32_mod = 2 ^ 32

unfoldable pub total_processed : IndexBatchResponse → ℕ
total_processed r = (r.processed_count + r.skipped_count) % u32_mod

-- `operations.iter().map(|op| op.writetime).max()`
unfoldable pub max_writetime : List IndexOperation → Option ℕ
max_writetime [] = none
max_writetime (op ∷ ops) = elim (max_writetime ops) [
  | none ↦ some op.writetime
  | some m ↦ some (max op.writetime m)
]

-- The variables of the loop over the node batches.
pub record Delivered : Type 0 where
  pub node_max_writetimes : List ℕ
  pub failed_nodes : List String

module _ (world : World) where
  open world use {State, item_of_json, try_send_batch, sleep}

  -- An item that cannot be read is dropped.
  unfoldable pub group_items : List String → NodeBatches → NodeBatches
  group_items [] batches = batches
  group_items (item ∷ items) batches =
      group_items items
        (elim (item_of_json item) [ none ↦ batches | some i ↦ push_operation i batches ])

  -- `for attempt in 0..self.max_retry_attempts`, with the attempts that are left.
  unfoldable pub send_attempts :
      Service
      → String
      → List IndexOperation
      → ℕ
      → ℕ
      → Option String
      → State
      → SendResult BatchSendError × State
  send_attempts s address ops zero attempt last_error w =
      (err (record { attempts = s.max_retry_attempts; last_error = last_error }), w)
  send_attempts s address ops (suc left) attempt last_error w =
      let (result, w') = try_send_batch address ops w in
      elim result [
        | ok response ↦ (ok response, w')
        | err e ↦ send_attempts s address ops left (attempt + 1) (some e) (
            if ltb attempt (s.max_retry_attempts - 1)
            then sleep (s.retry_backoff_ms * 2 ^ attempt) w'
            else w')
      ]

  unfoldable pub send_batch_with_retry :
      Service → String → List IndexOperation → State → SendResult BatchSendError × State
  unfolding address_of
  send_batch_with_retry s target_node ops w =
      send_attempts s (address_of target_node) ops s.max_retry_attempts 0 none w

  -- What the loop does with one answer: a node that acknowledged too few operations has failed.
  unfoldable pub record_result :
      String → List IndexOperation → SendResult BatchSendError → Delivered → Delivered
  unfolding total_processed max_writetime
  record_result node ops (ok response) d =
      if ltb (total_processed response) (length ops % u32_mod)
      then record d { failed_nodes = d.failed_nodes ++ node ∷ [] }
      else (elim (max_writetime ops) [
        | none ↦ d
        | some m ↦ record d { node_max_writetimes = d.node_max_writetimes ++ m ∷ [] }
      ])
  record_result node ops (err e) d = record d { failed_nodes = d.failed_nodes ++ node ∷ [] }

  unfoldable pub send_batches : Service → NodeBatches → Delivered → State → Delivered × State
  send_batches s [] d w = (d, w)
  send_batches s ((node, ops) ∷ batches) d w =
      let (result, w') = send_batch_with_retry s node ops w in
      send_batches s batches (record_result node ops result d) w'

  unfoldable pub flush_result : Delivered → Option BatchFlushError
  flush_result d = elim d.failed_nodes [
    | [] ↦ none
    | n ∷ ns ↦ some (record { failed_nodes = n ∷ ns; message = failed_to_flush (length (n ∷ ns)) })
  ]

  -- The part of `flush` after the lock on the buffer, on the items that were in it; `none` for `Ok(())`.
  unfoldable pub flush_items :
      List String → Service → State → Option BatchFlushError × Service × State
  flush_items [] s w = (none, s, w)
  flush_items (item ∷ items) s w =
      let start : Delivered = record { node_max_writetimes = []; failed_nodes = [] } in
      let (d, w') = send_batches s (group_items (item ∷ items) []) start w in
      (flush_result d, record s { buffer = [] }, w')

  -- The buffer is taken whatever becomes of its items.
  unfoldable pub flush : Service → State → Option BatchFlushError × Service × State
  flush s w = flush_items s.buffer s w

  -- `add`. The error of its flush is wrapped, which forgets the nodes.
  unfoldable pub add : String → Service → State → Option BatchFlushError × Service × State
  add item s w =
      let pushed : Service = record s { buffer = s.buffer ++ item ∷ [] } in
      let (e, s', w') = flush pushed w in
      let wrapped : Option BatchFlushError = elim e [
        | none ↦ none
        | some _ ↦ some (record { failed_nodes = []; message = failed_to_flush_buffer })
      ] in
      if s.last_flush_failed
      then (some (record { failed_nodes = []; message = backpressure_active }), s, w)
      else if leb s.batch_limit (length pushed.buffer)
      then (wrapped, s', w')
      else (none, pushed, w)

  -- One turn of the ticker: the flag says whether its flush failed.
  unfoldable pub tick : Service → State → Service × State
  tick s w =
      let (e, s', w') = flush s w in
      elim e [
        | none ↦ (record s' { last_flush_failed = false }, w')
        | some _ ↦ (record s' { last_flush_failed = true }, w')
      ]
