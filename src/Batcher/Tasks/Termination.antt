-- ===== src/Batcher/Tasks/Termination.antt =====
-- Every call of the batch service returns, whatever the other tasks do between its steps.
use tantylla.Base.{
  ℕ, zero, suc, ◌+◌, ◌≡◌, refl, String, Bool, true, false, Option, none, some, List, [], ◌∷◌,
  if◌then◌else◌,
}
use tantylla.Indexer.{IndexOperation}
use tantylla.Batcher.Service.{
  World, Service, SendResult, ok, err, BatchFlushError, NodeBatches, Delivered, address_of,
  flush_result,
}
use tantylla.Batcher.Tasks.{
  Caller, by_add, by_ticker, by_shutdown, Task, checking, pushing, flushing, sending, trying,
  flagging, finished, returned, taken_items, answered, step_task,
}

abbrev pub is_finished : Task → Bool
is_finished (finished e) = true
is_finished task = false

module _ (world : World) where
  open world use {State, try_send_batch}

  -- A task after a number of its steps, each of which finds the service and the world in some state.
  abbrev pub task_after : (ℕ → Service) → (ℕ → State) → Task → ℕ → Task
  task_after services worlds task zero = task
  task_after services worlds task (suc n) =
      task_after (λ i. services (suc i)) (λ i. worlds (suc i))
        (step_task world task (services 0) (worlds 0)).0 n

  abbrev pub Ends : Task → Type 0
  Ends task =
      (services : ℕ → Service) (worlds : ℕ → State)
      → (n : ℕ) × (is_finished (task_after services worlds task n) ≡ true)

  Ends-step :
      (task : Task) → ((s : Service) (w : State) → Ends (step_task world task s w).0) → Ends task
  Ends-step task h services worlds =
      let (n, e) = h (services 0) (worlds 0) (λ i. services (suc i)) (λ i. worlds (suc i)) in
      (suc n, e)

  finished-Ends : (e : Option BatchFlushError) → Ends (finished e)
  finished-Ends e services worlds = (0, refl)

  if-Ends : (b : Bool) (t u : Task) → Ends t → Ends u → Ends (if b then t else u)
  if-Ends true t u h k = h
  if-Ends false t u h k = k

  flagging-Ends : (e : Option BatchFlushError) → Ends (flagging e)
  unfolding step_task
  flagging-Ends e = Ends-step (flagging e) (λ s w. finished-Ends none)

  returned-Ends : (caller : Caller) (e : Option BatchFlushError) → Ends (returned caller e)
  unfolding returned
  returned-Ends by_add none = finished-Ends none
  returned-Ends by_add (some e) = finished-Ends _
  returned-Ends by_ticker e = flagging-Ends e
  returned-Ends by_shutdown e = finished-Ends e

  module _ (caller : Caller) where
    module _ (node : String) (ops : List IndexOperation) (batches : NodeBatches)
        (rest : (d : Delivered) → Ends (sending caller batches d)) where
      answered-Ends :
          (left attempt : ℕ) (d : Delivered) (s : Service) (r : SendResult String) (w : State)
          → ((e : String) → Ends (trying caller node ops left (attempt + 1) (some e) batches d))
          → Ends (answered world caller node ops left attempt batches d s r w).0
      unfolding answered
      answered-Ends left attempt d s (ok response) w again = rest _
      answered-Ends left attempt d s (err e) w again = again e

      trying-Ends :
          (left attempt : ℕ) (last_error : Option String) (d : Delivered)
          → Ends (trying caller node ops left attempt last_error batches d)
      unfolding step_task
      trying-Ends zero attempt last_error d = Ends-step _ (λ s w. rest _)
      trying-Ends (suc left) attempt last_error d = Ends-step _ (λ s w.
          answered-Ends left attempt d s (try_send_batch (address_of node) ops w).0
            (try_send_batch (address_of node) ops w).1
            (λ e. trying-Ends left (attempt + 1) (some e) d))

    sending-Ends : (batches : NodeBatches) (d : Delivered) → Ends (sending caller batches d)
    unfolding step_task
    sending-Ends [] d = Ends-step _ (λ s w. returned-Ends caller (flush_result world d))
    sending-Ends ((node, ops) ∷ batches) d =
        Ends-step _
          (λ s w. trying-Ends node ops batches (sending-Ends batches) s.max_retry_attempts 0 none d)

    taken-Ends :
        (items : List String) (s : Service) (w : State)
        → Ends (taken_items world caller items s w).0
    unfolding taken_items
    taken-Ends [] s w = returned-Ends caller none
    taken-Ends (item ∷ items) s w = sending-Ends _ _

    flushing-Ends : Ends (flushing caller)
    unfolding step_task
    flushing-Ends = Ends-step _ (λ s w. taken-Ends s.buffer s w)

  pushing-Ends : (item : String) → Ends (pushing item)
  unfolding step_task
  pushing-Ends item = Ends-step (pushing item) (λ s w.
      if-Ends _ (flushing by_add) (finished none) (flushing-Ends by_add) (finished-Ends none))

  -- Every call of `add` and `flush`, and every turn of the ticker, returns after a number of steps, whatever
  -- the service and the world are when it takes each of them.
  pub task_after-finishes :
      (task : Task) (services : ℕ → Service) (worlds : ℕ → State)
      → (n : ℕ) × (is_finished (task_after services worlds task n) ≡ true)
  unfolding step_task
  task_after-finishes (checking item) =
      Ends-step (checking item)
        (λ s w. if-Ends s.last_flush_failed _ (pushing item) (finished-Ends _) (pushing-Ends item))
  task_after-finishes (pushing item) = pushing-Ends item
  task_after-finishes (flushing caller) = flushing-Ends caller
  task_after-finishes (sending caller batches d) = sending-Ends caller batches d
  task_after-finishes (trying caller node ops left attempt last_error batches d) =
      trying-Ends caller node ops batches (sending-Ends caller batches) left attempt last_error d
  task_after-finishes (flagging e) = flagging-Ends e
  task_after-finishes (finished e) = finished-Ends e
