-- ===== src/Routing/Recovery.antt =====
-- Backpressure and the turns of the batch service's ticker.
use tantylla.Base.{◌<◌, ◌≡◌, refl, ap, String, false, none, some, inr, [], ◌∷◌, length, arith}
use tantylla.Indexer.{OpType}
use tantylla.Batcher.Service.{World, Service, BatchItem, tick}
use tantylla.Batcher.Buffer.{buffer-tick, limit-tick, tick_again}
use tantylla.Routing.Forward.{Rows, Router, item_of_row, target_node, route_forward}
use tantylla.Routing.Backpressure.{route_forward_room}

module _ (rows : Rows) (world : World) where
  open world use {State}

  -- Two turns of the ticker, each in the world at its time.
  abbrev two_ticks : Service → State → State → Service
  two_ticks s w w' = (tick world (tick world s w).0 w').0

  -- Whatever the state of the service and whatever the nodes answered: after two turns of the ticker a
  -- row whose item can be made and written as JSON is taken, and is then alone in the buffer. The
  -- buffer's limit is at least two.
  pub route_forward-two_ticks :
      (router : Router) (row : rows.Row) (op_type : OpType) (s : Service) (w w' w'' : State)
      (item : BatchItem) (text : String)
      → 1 < s.batch_limit
      → item_of_row rows router op_type row (target_node rows router row) ≡ inr item
      → world.item_to_json item ≡ some text
      → let (e, s', w3) = route_forward rows world router row op_type (two_ticks s w w') w'' in
        (e ≡ none) × (s'.buffer ≡ text ∷ []) × (w3 ≡ w'')
  route_forward-two_ticks router row op_type s w w' w'' item text limit made json =
      let once = (tick world s w).0 in
      let cleared : Service = record once { last_flush_failed = false } in
      let taken =
        route_forward_room rows world router row op_type cleared w'' item text refl
          (omega (arith, limit-tick world s w, ap length (buffer-tick world s w))) made json in
      rw (ap (λ p. p.0) (tick_again world s w w'), taken)
        (refl, rw (buffer-tick world s w) refl, refl)
