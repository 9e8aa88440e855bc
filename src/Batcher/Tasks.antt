-- ===== src/Batcher/Tasks.antt =====
-- The batch service under several tasks: each call of `add` or `flush` and the ticker is a task, and the
-- tasks take turns at the locks and at the calls of nodes.
pub mod Termination
pub mod Conserved
pub mod Room
pub mod Alone
pub mod Overtaken
use tantylla.Base.{
  ℕ, zero, suc, ◌+◌, ◌-◌, ◌*◌, ◌^◌, ◌≡◌, String, Bool, true, false, Option, none, some, List, [],
  ◌∷◌, ◌++◌, length, ltb, leb, if◌then◌else◌,
}
use tantylla.Indexer.{IndexOperation}
use tantylla.Batcher.Service.{
  World, Service, SendResult, ok, err, BatchFlushError, failed_to_flush_buffer, backpressure_active,
  NodeBatches, Delivered, group_items, record_result, flush_result, address_of,
}

-- Who called `flush`: `add`, a turn of the ticker, or the shutdown of the process.
pub data Caller : Type 0 where
  by_add : Caller
  by_ticker : Caller
  by_shutdown : Caller

-- Where a task stands. A lock is held within one step only: no task waits for a node with a lock held.
pub data Task : Type 0 where
  -- `add` before it reads the flag, and after that before it locks the buffer.
  checking : String → Task
  pushing : String → Task
  -- `flush` before it locks the buffer, and in the loop over the nodes.
  flushing : Caller → Task
  sending : Caller → NodeBatches → Delivered → Task
  -- The attempts for one node: its operations, the attempts left, the attempt, the last error, and the
  -- loop to go on with.
  trying :
      Caller → String → List IndexOperation → ℕ → ℕ → Option String → NodeBatches → Delivered → Task
  -- The ticker with the result of its flush, and a call that has returned.
  flagging : Option BatchFlushError → Task
  finished : Option BatchFlushError → Task

abbrev pub nothing_delivered : Delivered
nothing_delivered = record { node_max_writetimes = []; failed_nodes = [] }

abbrev pub is_error : Option BatchFlushError → Bool
is_error none = false
is_error (some e) = true

-- `flush` has returned to its caller.
unfoldable pub returned : Caller → Option BatchFlushError → Task
returned by_add none = finished none
returned by_add (some e) =
    finished (some (record { failed_nodes = []; message = failed_to_flush_buffer }))
returned by_ticker e = flagging e
returned by_shutdown e = finished e

module _ (world : World) where
  open world use {State, try_send_batch, sleep}

  -- The items that the lock on the buffer gave.
  unfoldable pub taken_items : Caller → List String → Service → State → Task × Service × State
  unfolding returned
  taken_items caller [] s w = (returned caller none, s, w)
  taken_items caller (item ∷ items) s w = (
    sending caller (group_items world (item ∷ items) []) nothing_delivered,
    record s { buffer = [] },
    w,
  )

  -- The answer of one attempt, of which `left` are left.
  unfoldable pub answered :
      Caller
      → String
      → List IndexOperation
      → ℕ
      → ℕ
      → NodeBatches
      → Delivered
      → Service
      → SendResult String
      → State
      → Task × Service × State
  answered caller node ops left attempt batches d s (ok response) w =
      (sending caller batches (record_result world node ops (ok response) d), s, w)
  answered caller node ops left attempt batches d s (err e) w = (
    trying caller node ops left (attempt + 1) (some e) batches d,
    s,
    if ltb attempt (s.max_retry_attempts - 1)
        then sleep (s.retry_backoff_ms * 2 ^ attempt) w
        else w,
  )

  -- One step of a task, with the service and the world as it finds them.
  unfoldable pub step_task : Task → Service → State → Task × Service × State
  unfolding taken_items returned answered address_of
  step_task (checking item) s w = (
    if s.last_flush_failed
        then finished (some (record { failed_nodes = []; message = backpressure_active }))
        else pushing item,
    s,
    w,
  )
  step_task (pushing item) s w =
      let pushed : Service = record s { buffer = s.buffer ++ item ∷ [] } in
      (
        if leb s.batch_limit (length pushed.buffer) then flushing by_add else finished none,
        pushed,
        w,
      )
  step_task (flushing caller) s w = taken_items caller s.buffer s w
  step_task (sending caller [] d) s w = (returned caller (flush_result world d), s, w)
  step_task (sending caller ((node, ops) ∷ batches) d) s w =
      (trying caller node ops s.max_retry_attempts 0 none batches d, s, w)
  step_task (trying caller node ops zero attempt last_error batches d) s w = (
    sending caller batches (
        record_result world node ops
          (err (record { attempts = s.max_retry_attempts; last_error = last_error })) d),
    s,
    w,
  )
  step_task (trying caller node ops (suc left) attempt last_error batches d) s w =
      let (result, w') = try_send_batch (address_of node) ops w in
      answered caller node ops left attempt batches d s result w'
  step_task (flagging e) s w = (finished none, record s { last_flush_failed = is_error e }, w)
  step_task (finished e) s w = (finished e, s, w)

  -- The process: the service, the world and the tasks, with the items that were ever pushed and the batches
  -- that each flush went on to send, which no code reads.
  pub record System : Type 0 where
    pub service : Service
    pub world_state : State
    pub tasks : List Task
    pub pushed : List String
    pub handed : List NodeBatches

  abbrev pub pushes : Task → List String
  pushes (pushing item) = item ∷ []
  pushes task = []

  -- The batches with which a step enters the loop over the nodes.
  abbrev pub hands : Task → Task → List NodeBatches
  hands (flushing caller) (sending caller' batches d) = batches ∷ []
  hands task task' = []

  -- A call of `add` or `flush` comes in, a task that is there takes a step, or the world changes.
  pub data Step (y : System) : System → Type 0 where
    adds : (item : String) → Step y (record y { tasks = y.tasks ++ checking item ∷ [] })
    flushes : (caller : Caller) → Step y (record y { tasks = y.tasks ++ flushing caller ∷ [] })
    runs :
        (before after : List Task) (task : Task)
        → y.tasks ≡ before ++ task ∷ after
        → Step y (record y {
          service = (step_task task y.service y.world_state).1;
          world_state = (step_task task y.service y.world_state).2;
          tasks = before ++ (step_task task y.service y.world_state).0 ∷ after;
          pushed = y.pushed ++ pushes task;
          handed = y.handed ++ hands task (step_task task y.service y.world_state).0;
        })
    changes : (w : State) → Step y (record y { world_state = w })

  pub data Reach (y : System) : System → Type 0 where
    here : Reach y y
    next : {u v : System} → Reach y u → Step u v → Reach y v

  -- The process before the first call.
  abbrev pub started : Service → State → System
  started s w = record {
    service = record s { buffer = [] };
    world_state = w;
    tasks = [];
    pushed = [];
    handed = [];
  }
