-- ===== src/Batcher/Tasks/Overtaken.antt =====
-- A flush that is overtaken by a later one.
use tantylla.Base.{◌<◌, ◌≡◌, refl, sym, ap, subst, String, false, none, List, [], ◌∷◌, ◌++◌, arith}
use tantylla.Batcher.Service.{World, Service, group_items, flush}
use tantylla.Batcher.Tasks.{
  Task, by_ticker, by_shutdown, checking, flushing, sending, finished, returned, nothing_delivered,
  taken_items, step_task, System, Step, adds, flushes, runs, Reach, here, next, started,
}
use tantylla.Batcher.Branches.{add-pushed}
use tantylla.Batcher.Tasks.Alone.{Runs, stops, steps, Runs-flush, Runs-add}

module _ (world : World) where
  open world use {State}

  Reach-trans : {x y z : System world} → Reach world x y → Reach world y z → Reach world x z
  Reach-trans r here = r
  Reach-trans r (next q st) = next (Reach-trans r q) st

  -- A process in which one task is at some point with the service and the world.
  pub record IsAt (before after : List Task) (r : Task × Service × State) (y : System world)
      : Type 0 where
    pub at_tasks : y.tasks ≡ before ++ r.0 ∷ after
    pub at_service : y.service ≡ r.1
    pub at_world : y.world_state ≡ r.2

  Step-IsAt :
      (before after : List Task) (task : Task) (s : Service) (w : State) (y : System world)
      → IsAt before after (task, s, w) y
      → (z : System world) × Step world y z × IsAt before after (step_task world task s w) z
  Step-IsAt before after task s w y a =
      let same : step_task world task y.service y.world_state ≡ step_task world task s w =
        cc (a.at_service, a.at_world) in
      (
        _,
        runs before after task a.at_tasks,
        record {
          at_tasks = ap (λ r. before ++ r.0 ∷ after) same;
          at_service = ap (λ r. r.1) same;
          at_world = ap (λ r. r.2) same;
        },
      )

  -- The steps of a task alone are steps of the process, in which the other tasks stay where they are.
  pub Reach-IsAt :
      (before after : List Task) {p r : Task × Service × State} (y : System world)
      → Runs world p r
      → IsAt before after p y
      → (z : System world) × Reach world y z × IsAt before after r z
  Reach-IsAt before after y (stops p) a = (y, here, a)
  Reach-IsAt before after y (steps task s w r h) a =
      let (z, st, b) = Step-IsAt before after task s w y a in
      let (x, q, c) = Reach-IsAt before after z h b in (x, Reach-trans (next here st) q, c)

  -- A call comes in and runs, with the tasks that are there in front.
  after_call :
      (ts : List Task) (task : Task) {r : Task × Service × State} (y : System world)
      → Step world y (record y { tasks = y.tasks ++ task ∷ [] })
      → y.tasks ≡ ts
      → Runs world (task, y.service, y.world_state) r
      → (z : System world) × Reach world y z
        × (z.tasks ≡ ts ++ r.0 ∷ [])
        × (z.service ≡ r.1)
        × (z.world_state ≡ r.2)
  after_call ts task {r} y enters e h =
      let (z, q, a) =
        Reach-IsAt ts [] {r = r} (record y { tasks = y.tasks ++ task ∷ [] }) h
          (record {
            at_tasks = ap (λ xs. xs ++ task ∷ []) e;
            at_service = refl;
            at_world = refl;
          }) in
      (z, Reach-trans (next here enters) q, a.at_tasks, a.at_service, a.at_world)

  module _ (s : Service) (clear : s.last_flush_failed ≡ false) (room : 1 < s.batch_limit) where
    abbrev holding : List String → Service
    holding items = record s { buffer = items }

    Runs-pushed :
        (item : String) (w : State)
        → Runs world (checking item, holding [], w) (finished none, holding (item ∷ []), w)
    Runs-pushed item w =
        subst (λ r. Runs world (checking item, holding [], w) (finished r.0, r.1, r.2))
          (add-pushed world item (holding []) w clear (ground arith))
          (Runs-add world item (holding []) w)

    -- The flush of the ticker, up to its first send.
    Runs-taken :
        (item : String) (w : State)
        → Runs world
            (flushing by_ticker, holding (item ∷ []), w)
            (sending by_ticker (group_items world (item ∷ []) []) nothing_delivered, holding [], w)
    unfolding step_task taken_items
    Runs-taken item w = steps _ _ _ _ (stops _)

    Runs-shutdown :
        (item : String) (w : State)
        → let (e, s', w') = flush world (holding (item ∷ [])) w in
          Runs world (flushing by_shutdown, holding (item ∷ []), w) (finished e, s', w')
    Runs-shutdown item w = unfold returned in Runs-flush world by_shutdown (holding (item ∷ [])) w

    after_call_at :
        (ts : List Task) (task : Task) (u : Service) (w : State) {r : Task × Service × State}
        (y : System world)
        → Step world y (record y { tasks = y.tasks ++ task ∷ [] })
        → (y.tasks ≡ ts) × (y.service ≡ u) × (y.world_state ≡ w)
        → Runs world (task, u, w) r
        → (z : System world) × Reach world y z
          × (z.tasks ≡ ts ++ r.0 ∷ [])
          × (z.service ≡ r.1)
          × (z.world_state ≡ r.2)
    after_call_at ts task u w {r} y enters e h = after_call ts task {r = r} y enters e.0 (
        subst (λ v. Runs world (task, y.service, v) r) (sym e.2)
          (subst (λ v. Runs world (task, v, w) r) (sym e.1) h))

    -- A flush of the ticker that has taken one item may still be before its first send when a later flush,
    -- which took a later item, has returned: the world is then the one after the later flush alone. There is
    -- no backpressure, and the limit of the buffer is above one.
    pub overtaken :
        (a b : String) (w : State)
        → let (e, s', w') = flush world (holding (b ∷ [])) w in
          (y : System world) × Reach world (started world s w) y
          × (y.tasks
              ≡ finished none
                ∷ sending by_ticker (group_items world (a ∷ []) []) nothing_delivered
                ∷ finished none
                ∷ finished e
                ∷ [])
          × (y.world_state ≡ w')
    overtaken a b w =
        let first = finished none in
        let second = sending by_ticker (group_items world (a ∷ []) []) nothing_delivered in
        let (y1, q1, t1, u1, v1) =
          after_call_at [] (checking a) (holding []) w (started world s w) (adds a)
            (refl, refl, refl) (Runs-pushed a w) in
        let (y2, q2, t2, u2, v2) =
          after_call_at (first ∷ []) (flushing by_ticker) (holding (a ∷ [])) w y1
            (flushes by_ticker) (t1, u1, v1) (Runs-taken a w) in
        let (y3, q3, t3, u3, v3) =
          after_call_at (first ∷ second ∷ []) (checking b) (holding []) w y2 (adds b) (t2, u2, v2)
            (Runs-pushed b w) in
        let (y4, q4, t4, u4, v4) =
          after_call_at (first ∷ second ∷ finished none ∷ []) (flushing by_shutdown)
            (holding (b ∷ [])) w y3 (flushes by_shutdown) (t3, u3, v3) (Runs-shutdown b w) in
        (y4, Reach-trans q1 (Reach-trans q2 (Reach-trans q3 q4)), t4, v4)
