-- ===== src/Batcher/Tasks/Room.antt =====
-- How far the buffer outgrows its limit when several calls of `add` run at a time.
use tantylla.Base.{
  ℕ, zero, suc, ◌+◌, ◌<◌, ◌≡◌, refl, ap, String, none, some, Option, List, [], ◌∷◌, ◌++◌, length,
  length-append, arith,
}
use tantylla.Indexer.{IndexOperation}
use tantylla.Batcher.Service.{
  World, Service, SendResult, ok, err, BatchFlushError, NodeBatches, Delivered, address_of,
  flush_result,
}
use tantylla.Batcher.Tasks.{
  Caller, by_add, by_ticker, by_shutdown, Task, checking, pushing, flushing, sending, trying,
  flagging, finished, returned, taken_items, answered, step_task, System, Step, adds, flushes, runs,
  changes, Reach, here, next, started,
}

-- A call of `add` that has reached the limit and has not yet locked the buffer for its flush.
abbrev pub owes : Task → ℕ
owes (flushing by_add) = 1
owes task = 0

abbrev pub owing : List Task → ℕ
owing [] = 0
owing (task ∷ tasks) = owes task + owing tasks

owing-append : (ts us : List Task) → owing (ts ++ us) ≡ owing ts + owing us
owing-append [] us = omega arith
owing-append (t ∷ ts) us = omega (arith, owing-append ts us)

returned-owes : (caller : Caller) (e : Option BatchFlushError) → owes (returned caller e) ≡ 0
unfolding returned
returned-owes by_add none = refl
returned-owes by_add (some e) = refl
returned-owes by_ticker e = refl
returned-owes by_shutdown e = refl

module _ (world : World) where
  open world use {State, try_send_batch}

  -- The buffer is within the limit, but for the items of calls that are about to flush.
  abbrev pub IsWithin : ℕ → Service → Type 0
  IsWithin n s = (0 < s.batch_limit) × (length s.buffer < s.batch_limit + n)

  abbrev Within : ℕ → Task × Service × State → Type 0
  Within n r = IsWithin (owes r.0 + n) r.1

  taken-Within :
      (n : ℕ) (caller : Caller) (items : List String) (s : Service) (w : State)
      → s.buffer ≡ items
      → 0 < s.batch_limit
      → Within n (taken_items world caller items s w)
  unfolding taken_items
  taken-Within n caller [] s w e h = omega (arith, returned-owes caller none, ap length e)
  taken-Within n caller (item ∷ items) s w e h = omega arith

  answered-Within :
      (n : ℕ) (caller : Caller) (node : String) (ops : List IndexOperation) (left attempt : ℕ)
      (batches : NodeBatches) (d : Delivered) (s : Service) (r : SendResult String) (w : State)
      → IsWithin n s
      → Within n (answered world caller node ops left attempt batches d s r w)
  unfolding answered
  answered-Within n caller node ops left attempt batches d s (ok response) w h = omega arith
  answered-Within n caller node ops left attempt batches d s (err e) w h = omega arith

  step_task-Within :
      (n : ℕ) (task : Task) (s : Service) (w : State)
      → IsWithin (owes task + n) s
      → Within n (step_task world task s w)
  unfolding step_task
  step_task-Within n (checking item) s w h = ground arith
  step_task-Within n (pushing item) s w h = ground (arith, length-append s.buffer (item ∷ []))
  step_task-Within n (flushing caller) s w h = taken-Within n caller s.buffer s w refl h.0
  step_task-Within n (sending caller [] d) s w h =
      omega (arith, returned-owes caller (flush_result world d))
  step_task-Within n (sending caller ((node, ops) ∷ batches) d) s w h = h
  step_task-Within n (trying caller node ops zero attempt last_error batches d) s w h = h
  step_task-Within n (trying caller node ops (suc left) attempt last_error batches d) s w h =
      answered-Within n caller node ops left attempt batches d s
        (try_send_batch (address_of node) ops w).0 (try_send_batch (address_of node) ops w).1
        (omega arith)
  step_task-Within n (flagging e) s w h = h
  step_task-Within n (finished e) s w h = h

  abbrev pub IsBounded : System world → Type 0
  IsBounded y = IsWithin (owing y.tasks) y.service

  Step-IsBounded : {y z : System world} → Step world y z → IsBounded y → IsBounded z
  Step-IsBounded {y} (adds item) h = omega (arith, owing-append y.tasks (checking item ∷ []))
  Step-IsBounded {y} (flushes caller) h = omega (arith, owing-append y.tasks (flushing caller ∷ []))
  Step-IsBounded {y} (runs before after task e) h =
      let t = (step_task world task y.service y.world_state).0 in
      omega (
        arith,
        step_task-Within (owing before + owing after) task y.service y.world_state
            (omega (arith, ap owing e, owing-append before (task ∷ after))),
        owing-append before (t ∷ after),
      )
  Step-IsBounded (changes w) h = h

  -- Whatever calls come in and however the tasks take turns: the buffer outgrows its limit, which is positive,
  -- by fewer items than there are calls of `add` that are about to flush it; where there are none, it stays
  -- below the limit.
  pub Reach-IsBounded :
      (s : Service) (w : State) {y : System world}
      → 0 < s.batch_limit
      → Reach world (started world s w) y
      → IsBounded y
  Reach-IsBounded s w h here = omega arith
  Reach-IsBounded s w h (next r st) = Step-IsBounded st (Reach-IsBounded s w h r)
