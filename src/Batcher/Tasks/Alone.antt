-- ===== src/Batcher/Tasks/Alone.antt =====
-- A task that runs alone does what `add`, `flush` and a turn of the ticker do in one piece.
use tantylla.Base.{
  ℕ, zero, suc, ◌+◌, ◌≡◌, refl, sym, subst, String, Option, none, some, List, [], ◌∷◌, length, leb,
  true, false, Bool-cases, inl, inr,
}
use tantylla.Indexer.{IndexOperation}
use tantylla.Batcher.Service.{
  World, Service, SendResult, ok, err, BatchFlushError, backpressure_active, BatchSendError,
  NodeBatches, Delivered, address_of, flush_result, group_items, record_result, send_attempts,
  send_batch_with_retry, send_batches, flush_items, flush, add, tick,
}
use tantylla.Batcher.Retry.{send_attempts-ok, send_attempts-err}
use tantylla.Batcher.Branches.{
  emptied, batches-emptied, tick_lem, add-refused, extended, wrapped, add-pushed, add-flushed,
}
use tantylla.Batcher.Tasks.{
  Caller, by_add, by_ticker, Task, checking, pushing, flushing, sending, trying, finished, returned,
  nothing_delivered, is_error, taken_items, answered, step_task,
}

module _ (world : World) where
  open world use {State, try_send_batch}

  -- The steps of one task, with nothing in between.
  pub data Runs : Task × Service × State → Task × Service × State → Type 0 where
    stops : (r : Task × Service × State) → Runs r r
    steps :
        (task : Task) (s : Service) (w : State) (r : Task × Service × State)
        → Runs (step_task world task s w) r
        → Runs (task, s, w) r

  Runs-trans : {p q r : Task × Service × State} → Runs p q → Runs q r → Runs p r
  Runs-trans (stops p) k = k
  Runs-trans (steps task s w q h) k = steps task s w _ (Runs-trans h k)

  module _ (caller : Caller) (s : Service) where
    module _ (node : String) (ops : List IndexOperation) (batches : NodeBatches)
        (d : Delivered) where
      abbrev recorded : SendResult BatchSendError × State → Task × Service × State
      recorded r = (sending caller batches (record_result world node ops r.0 d), s, r.1)

      Runs-attempts :
          (left attempt : ℕ) (last_error : Option String) (w : State)
          → Runs
              (trying caller node ops left attempt last_error batches d, s, w)
              (recorded (send_attempts world s (address_of node) ops left attempt last_error w))
      unfolding step_task send_attempts answered
      Runs-attempts zero attempt last_error w = steps _ s w _ (stops _)
      Runs-attempts (suc left) attempt last_error w = steps _ s w _ (
          by_answer (try_send_batch (address_of node) ops w) refl
            (λ e w'. Runs-attempts left (attempt + 1) (some e) w'))
        where
          by_answer :
              (x : SendResult String × State)
              → try_send_batch (address_of node) ops w ≡ x
              → ((e : String) (w' : State)
                  → Runs
                      (trying caller node ops left (attempt + 1) (some e) batches d, s, w')
                      (recorded (
                        send_attempts world s
                          (address_of node)
                          ops
                          left
                          (attempt + 1)
                          (some e)
                          w')))
              → Runs
                  (answered world caller node ops left attempt batches d s
                    (try_send_batch (address_of node) ops w).0
                    (try_send_batch (address_of node) ops w).1)
                  (recorded
                    (send_attempts world s (address_of node) ops (suc left) attempt last_error w))
          by_answer (ok response, w') e again =
              rw
                (send_attempts-ok world s (address_of node) ops left attempt last_error w w'
                  response e)
                (rw e (stops _))
          by_answer (err text, w') e again =
              rw
                (send_attempts-err world s (address_of node) ops left attempt last_error w w' text
                  e)
                (rw e (again text _))

    Runs-batches :
        (batches : NodeBatches) (d : Delivered) (w : State)
        → let (d', w') = send_batches world s batches d w in
          Runs (sending caller batches d, s, w) (sending caller [] d', s, w')
    unfolding send_batches send_batch_with_retry step_task
    Runs-batches [] d w = stops _
    Runs-batches ((node, ops) ∷ batches) d w = steps _ s w _ (
        Runs-trans (Runs-attempts node ops batches d s.max_retry_attempts 0 none w)
          (Runs-batches batches _ _))

  -- The lock on the buffer and the loop over the nodes, up to the return to the caller.
  Runs-items :
      (caller : Caller) (items : List String) (s : Service) (w : State)
      → s.buffer ≡ items
      → let (e, s', w') = flush_items world items s w in
        Runs (taken_items world caller items s w) (returned caller e, s', w')
  unfolding taken_items flush_items step_task
  Runs-items caller [] s w h = stops _
  Runs-items caller (item ∷ items) s w h =
      subst
        (λ r.
          Runs
            (
              sending caller (group_items world (item ∷ items) []) nothing_delivered,
              emptied world s,
              w,
            )
            (returned caller (flush_result world r.0), emptied world s, r.1))
        (batches-emptied world s (group_items world (item ∷ items) []) nothing_delivered w)
        (Runs-trans
          (Runs-batches caller (emptied world s) (group_items world (item ∷ items) [])
            nothing_delivered w)
          (steps _ _ _ _ (stops _)))

  pub Runs-flush :
      (caller : Caller) (s : Service) (w : State)
      → let (e, s', w') = flush world s w in
        Runs (flushing caller, s, w) (returned caller e, s', w')
  unfolding flush step_task
  Runs-flush caller s w = steps _ s w _ (Runs-items caller s.buffer s w refl)

  Runs-flagging :
      (e : Option BatchFlushError) (s : Service) (w : State)
      → Runs
          (returned by_ticker e, s, w)
          (finished none, record s { last_flush_failed = is_error e }, w)
  unfolding returned step_task
  Runs-flagging e s w = steps _ s w _ (stops _)

  -- A turn of the ticker.
  pub Runs-tick :
      (s : Service) (w : State)
      → let (s', w') = tick world s w in Runs (flushing by_ticker, s, w) (finished none, s', w')
  Runs-tick s w =
      subst (λ r. Runs (flushing by_ticker, s, w) (finished none, r.0, r.1))
        (sym (tick_lem world s w)) (Runs-trans (Runs-flush by_ticker s w) (Runs-flagging _ _ _))

  module _ (item : String) (s : Service) (w : State) (clear : s.last_flush_failed ≡ false) where
    abbrev Adds : Option BatchFlushError × Service × State → Type 0
    Adds r = Runs (checking item, s, w) (finished r.0, r.1, r.2)

    -- The two locks of `add`.
    Runs-locks :
        (r : Task × Service × State)
        → Runs (step_task world (pushing item) s w) r
        → Runs (checking item, s, w) r
    unfolding step_task
    Runs-locks r h = steps _ s w r (simp clear (steps _ s w r h))

    returned-wrapped : (e : Option BatchFlushError) → returned by_add e ≡ finished (wrapped e)
    unfolding returned
    returned-wrapped none = refl
    returned-wrapped (some e) = refl

    Runs-clear : Adds (add world item s w)
    unfolding step_task
    Runs-clear = elim (Bool-cases (leb s.batch_limit (length (extended item s).buffer))) [
      | inl full ↦ rw (add-flushed world item s w clear full) (
          Runs-locks _ (
            rw full (
              subst
                (λ t.
                  Runs (flushing by_add, extended item s, w)
                    (t, (flush world (extended item s) w).1, (flush world (extended item s) w).2))
                (returned-wrapped (flush world (extended item s) w).0)
                (Runs-flush by_add (extended item s) w))))
      | inr room ↦ rw (add-pushed world item s w clear room) (Runs-locks _ (rw room (stops _)))
    ]

  Runs-refused :
      (item : String) (s : Service) (w : State)
      → s.last_flush_failed ≡ true
      → Runs
          (checking item, s, w)
          (finished (some (record { failed_nodes = []; message = backpressure_active })), s, w)
  unfolding step_task
  Runs-refused item s w h = steps _ s w _ (rw h (stops _))

  -- A call of `add` whose steps have no other task's between them has the result of `add`, and leaves the
  -- service and the world as `add` does.
  pub Runs-add :
      (item : String) (s : Service) (w : State)
      → let (e, s', w') = add world item s w in Runs (checking item, s, w) (finished e, s', w')
  Runs-add item s w = elim (Bool-cases s.last_flush_failed) [
    | inl set ↦ rw (add-refused world item s w set) (Runs-refused item s w set)
    | inr clear ↦ Runs-clear item s w clear
  ]
