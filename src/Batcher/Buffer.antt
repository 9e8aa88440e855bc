-- ===== src/Batcher/Buffer.antt =====
-- The buffer of the batch service through its calls: `add`, `flush` and the turns of the ticker.
use tantylla.Base.{
  ◌<◌, ◌≡◌, refl, ap, String, false, none, List, [], ◌∷◌, ◌++◌, length, length-append, arith,
}
use tantylla.Batcher.Service.{World, Service, flush_items, flush, add, tick}

module _ (world : World) where
  open world use {State}

  pub buffer-flush : (s : Service) (w : State) → (flush world s w).1.buffer ≡ []
  unfolding flush flush_items
  buffer-flush s w = by_cases s.buffer refl
    where
      by_cases :
          (items : List String) → s.buffer ≡ items → (flush_items world items s w).1.buffer ≡ []
      by_cases [] e = e
      by_cases (item ∷ items) e = refl

  pub limit-flush : (s : Service) (w : State) → (flush world s w).1.batch_limit ≡ s.batch_limit
  unfolding flush flush_items
  limit-flush s w = by_cases s.buffer
    where
      by_cases : (items : List String) → (flush_items world items s w).1.batch_limit ≡ s.batch_limit
      by_cases [] = refl
      by_cases (item ∷ items) = refl

  -- The buffer leaves room for one more item.
  abbrev pub HasRoom : Service → Type 0
  HasRoom s = length s.buffer < s.batch_limit

  flush-HasRoom : (s : Service) (w : State) → HasRoom s → HasRoom (flush world s w).1
  flush-HasRoom s w h = omega (arith, limit-flush s w, ap length (buffer-flush s w))

  add-HasRoom :
      (item : String) (s : Service) (w : State) → HasRoom s → HasRoom (add world item s w).1
  unfolding add
  add-HasRoom item s w h =
      let pushed : Service = record s { buffer = s.buffer ++ item ∷ [] } in
      ground
        (arith, limit-flush pushed w, buffer-flush pushed w, length-append s.buffer (item ∷ []))

  tick-HasRoom : (s : Service) (w : State) → HasRoom s → HasRoom (tick world s w).0
  unfolding tick
  tick-HasRoom s w h = ground (arith, flush-HasRoom s w h)

  -- The calls on a service, each with the world at its time.
  pub data Call (s : Service) : Service → Type 0 where
    adds : (item : String) (w : State) → Call s (add world item s w).1
    flushes : (w : State) → Call s (flush world s w).1
    ticks : (w : State) → Call s (tick world s w).0

  pub data Calls (s : Service) : Service → Type 0 where
    here : Calls s s
    next : {u v : Service} → Calls s u → Call u v → Calls s v

  Call-HasRoom : {s u : Service} → Call s u → HasRoom s → HasRoom u
  Call-HasRoom {s} (adds item w) h = add-HasRoom item s w h
  Call-HasRoom {s} (flushes w) h = flush-HasRoom s w h
  Call-HasRoom {s} (ticks w) h = tick-HasRoom s w h

  -- However the service is called, its buffer stays below the limit.
  pub Calls-HasRoom : {s u : Service} → HasRoom s → Calls s u → HasRoom u
  Calls-HasRoom h here = h
  Calls-HasRoom h (next r c) = Call-HasRoom c (Calls-HasRoom h r)

  flush_empty : (s : Service) (w : State) → s.buffer ≡ [] → flush world s w ≡ (none, s, w)
  unfolding flush flush_items
  flush_empty s w h = ap (λ items. flush_items world items s w) h

  pub buffer-tick : (s : Service) (w : State) → (tick world s w).0.buffer ≡ []
  unfolding tick
  buffer-tick s w = ground (arith, buffer-flush s w)

  pub limit-tick : (s : Service) (w : State) → (tick world s w).0.batch_limit ≡ s.batch_limit
  unfolding tick
  limit-tick s w = ground (arith, limit-flush s w)

  tick_empty :
      (s : Service) (w : State)
      → s.buffer ≡ []
      → tick world s w ≡ (record s { last_flush_failed = false }, w)
  unfolding tick
  tick_empty s w h = ground (arith, flush_empty s w h)

  -- After a flush, whatever its result, the next one succeeds and sends nothing.
  pub flush_again :
      (s : Service) (w w' : State)
      → flush world (flush world s w).1 w' ≡ (none, (flush world s w).1, w')
  flush_again s w w' = flush_empty (flush world s w).1 w' (buffer-flush s w)

  -- The flag that a failed flush of the ticker sets is cleared by the ticker's next turn, which sends
  -- nothing.
  pub tick_again :
      (s : Service) (w w' : State)
      → tick world (tick world s w).0 w'
        ≡ (record (tick world s w).0 { last_flush_failed = false }, w')
  tick_again s w w' = tick_empty (tick world s w).0 w' (buffer-tick s w)
