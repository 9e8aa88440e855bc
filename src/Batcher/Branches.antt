-- ===== src/Batcher/Branches.antt =====
-- The branches of `add` and of a turn of the ticker, on a flush that stays shut, and what a flush sends.
use tantylla.Base.{
  ℕ, zero, suc, ◌+◌, ◌≡◌, refl, sym, ◌∙◌, String, Option, none, some, List, [], ◌∷◌, ◌++◌, length,
  leb, true, false, arith,
}
use tantylla.Indexer.{IndexOperation}
use tantylla.Batcher.Service.{
  World, Service, SendResult, ok, err, BatchFlushError, backpressure_active, failed_to_flush_buffer,
  NodeBatches, Delivered, address_of, send_attempts, send_batch_with_retry, send_batches, flush,
  add, tick,
}
use tantylla.Batcher.Retry.{send_attempts-ok, send_attempts-err}
use tantylla.Batcher.Tasks.{is_error}

-- The service with one more item.
abbrev pub extended : String → Service → Service
extended item s = record s { buffer = s.buffer ++ item ∷ [] }

-- The error of its flush, as `add` returns it.
abbrev pub wrapped : Option BatchFlushError → Option BatchFlushError
wrapped none = none
wrapped (some e) = some (record { failed_nodes = []; message = failed_to_flush_buffer })

module _ (world : World) where
  open world use {State, try_send_batch}

  -- What is sent does not depend on the buffer.
  module _ (s : Service) where
    abbrev pub emptied : Service
    emptied = record s { buffer = [] }

    attempts-emptied :
        (address : String) (ops : List IndexOperation) (left attempt : ℕ)
        (last_error : Option String) (w : State)
        → send_attempts world emptied address ops left attempt last_error w
          ≡ send_attempts world s address ops left attempt last_error w
    unfolding send_attempts
    attempts-emptied address ops zero attempt last_error w = refl
    attempts-emptied address ops (suc left) attempt last_error w =
        by_answer (try_send_batch address ops w) refl
          (λ e w'. attempts-emptied address ops left (attempt + 1) (some e) w')
      where
        by_answer :
            (x : SendResult String × State)
            → try_send_batch address ops w ≡ x
            → ((e : String) (w' : State)
                → send_attempts world emptied address ops left (attempt + 1) (some e) w'
                  ≡ send_attempts world s address ops left (attempt + 1) (some e) w')
            → send_attempts world emptied address ops (suc left) attempt last_error w
              ≡ send_attempts world s address ops (suc left) attempt last_error w
        by_answer (ok response, w') e again =
            send_attempts-ok world emptied address ops left attempt last_error w w' response e
            ∙ sym (send_attempts-ok world s address ops left attempt last_error w w' response e)
        by_answer (err text, w') e again =
            send_attempts-err world emptied address ops left attempt last_error w w' text e
            ∙ again text _
            ∙ sym (send_attempts-err world s address ops left attempt last_error w w' text e)

    pub batches-emptied :
        (batches : NodeBatches) (d : Delivered) (w : State)
        → send_batches world emptied batches d w ≡ send_batches world s batches d w
    unfolding send_batches send_batch_with_retry
    batches-emptied [] d w = refl
    batches-emptied ((node, ops) ∷ batches) d w =
        rw (attempts-emptied (address_of node) ops s.max_retry_attempts 0 none w)
          (batches-emptied batches _ _)

  pub tick_lem :
      (s : Service) (w : State)
      → tick world s w ≡ (
        record (flush world s w).1 { last_flush_failed = is_error (flush world s w).0 },
        (flush world s w).2,
      )
  unfolding tick
  tick_lem s w = by_result (flush world s w).0 refl
    where
      by_result :
          (e : Option BatchFlushError)
          → (flush world s w).0 ≡ e
          → tick world s w ≡ (
            record (flush world s w).1 { last_flush_failed = is_error (flush world s w).0 },
            (flush world s w).2,
          )
      by_result none h = ground (arith, h)
      by_result (some e) h = ground (arith, h)

  pub add-refused :
      (item : String) (s : Service) (w : State)
      → s.last_flush_failed ≡ true
      → add world item s w
        ≡ (some (record { failed_nodes = []; message = backpressure_active }), s, w)
  unfolding add
  add-refused item s w h = ground (arith, h)

  module _ (item : String) (s : Service) (w : State) (clear : s.last_flush_failed ≡ false) where
    pub add-pushed :
        leb s.batch_limit (length (extended item s).buffer) ≡ false
        → add world item s w ≡ (none, (extended item s), w)
    unfolding add
    add-pushed h = ground (arith, h, clear)

    pub add-flushed :
        leb s.batch_limit (length (extended item s).buffer) ≡ true
        → add world item s w ≡ (
          wrapped (flush world (extended item s) w).0,
          (flush world (extended item s) w).1,
          (flush world (extended item s) w).2,
        )
    unfolding add
    add-flushed h = by_result (flush world (extended item s) w).0 refl
      where
        by_result :
            (e : Option BatchFlushError)
            → (flush world (extended item s) w).0 ≡ e
            → add world item s w ≡ (
              wrapped (flush world (extended item s) w).0,
              (flush world (extended item s) w).1,
              (flush world (extended item s) w).2,
            )
        by_result none e = ground (arith, e, h, clear)
        by_result (some x) e = ground (arith, e, h, clear)
