-- ===== src/Routing/Pairs.antt =====
-- The two bounds of a range delete in the rows that a consumer reads.
use tantylla.Base.{◌≡◌, ◌≢◌, refl, ap, ◌∙◌, Option, none, some, List, [], ◌∷◌, All, arith, inl, inr}
use tantylla.Routing.Action.{
  PendingRangeStart, RoutingAction, skip, range_delete_start, range_delete_end, forward, determine,
}
use tantylla.Routing.Consumer.{
  Router, Consumer, commit_range, in_context, start_range, end_range, consume_action, consume_cdc,
}

module _ (router : Router) where
  open router use {Row, State, Error, operation, extract_range_delete_start, commit_range_delete}

  -- The consumer and the state after some rows, one after the other, errors included.
  abbrev pub consumed : List Row → Consumer → State → Consumer × State
  consumed [] c w = (c, w)
  consumed (row ∷ rows) c w = let (e, c', w') = consume_cdc router row c w in consumed rows c' w'

  -- A row that is no bound of a range delete.
  abbrev pub IsUnbounded : Row → Type 0
  IsUnbounded row =
      (determine (operation row) ≢ range_delete_start)
      × (determine (operation row) ≢ range_delete_end)

  consume_action-unbounded :
      (a : RoutingAction) (row : Row) (c : Consumer) (w : State)
      → a ≢ range_delete_start
      → a ≢ range_delete_end
      → (consume_action router a row c w).1 ≡ c
  unfolding consume_action
  consume_action-unbounded skip row c w s t = refl
  consume_action-unbounded range_delete_start row c w s t = absurd (s refl)
  consume_action-unbounded range_delete_end row c w s t = absurd (t refl)
  consume_action-unbounded (forward op) row c w s t = refl

  consumed-unbounded :
      (rows : List Row) (c : Consumer) (w : State)
      → All IsUnbounded rows
      → (consumed rows c w).0 ≡ c
  unfolding consume_cdc
  consumed-unbounded [] c w u = refl
  consumed-unbounded (row ∷ rows) c w u =
      let r = consume_cdc router row c w in
      consumed-unbounded rows r.1 r.2 u.1
      ∙ consume_action-unbounded (determine (operation row)) row c w u.0.0 u.0.1

  pending-start :
      (row : Row) (c : Consumer) (w : State) (p : PendingRangeStart)
      → determine (operation row) ≡ range_delete_start
      → extract_range_delete_start row ≡ inr p
      → (consume_cdc router row c w).1 ≡ record { pending_range_start = some p }
  unfolding consume_cdc consume_action start_range
  pending-start row c w p s x = rw (s, x, start_range)

  consume_cdc-end :
      (row : Row) (c : Consumer) (w : State) (p : PendingRangeStart)
      → determine (operation row) ≡ range_delete_end
      → c ≡ record { pending_range_start = some p }
      → consume_cdc router row c w ≡ (
        in_context commit_range (commit_range_delete p row w).0,
        record { pending_range_start = none },
        (commit_range_delete p row w).1,
      )
  unfolding consume_cdc consume_action end_range
  consume_cdc-end row c w p s h = rw (s, h)

  -- Whatever was pending, and whatever rows that are no bounds come between: an end bound is resolved
  -- with the start bound before it, after which nothing is pending, also when that fails.
  pub consume_cdc-range :
      (start : Row) (between : List Row) (finish : Row) (c : Consumer) (w : State)
      (p : PendingRangeStart)
      → determine (operation start) ≡ range_delete_start
      → extract_range_delete_start start ≡ inr p
      → All IsUnbounded between
      → determine (operation finish) ≡ range_delete_end
      → let (c', w') = consumed (start ∷ between) c w in
        consume_cdc router finish c' w' ≡ (
          in_context commit_range (commit_range_delete p finish w').0,
          record { pending_range_start = none },
          (commit_range_delete p finish w').1,
        )
  consume_cdc-range start between finish c w p s x u f =
      let r = consume_cdc router start c w in
      consume_cdc-end finish (consumed between r.1 r.2).0 (consumed between r.1 r.2).1 p f
        (consumed-unbounded between r.1 r.2 u ∙ pending-start start c w p s x)

  -- What is pending after any rows: the start bound of the last readable start row that no end row
  -- follows, or what was pending before.
  abbrev pub open_start : List Row → Option PendingRangeStart → Option PendingRangeStart
  open_start [] o = o
  open_start (row ∷ rows) o = open_start rows (elim (determine (operation row)) [
    | skip ↦ o
    | range_delete_start ↦ elim (extract_range_delete_start row) [ inl e ↦ o | inr p ↦ some p ]
    | range_delete_end ↦ none
    | forward op ↦ o
  ])

  pending-consume_cdc :
      (row : Row) (c : Consumer) (w : State)
      → (consume_cdc router row c w).1.pending_range_start
        ≡ open_start (row ∷ []) c.pending_range_start
  unfolding consume_cdc consume_action start_range end_range
  pending-consume_cdc row c w = by_action (determine (operation row))
    where
      by_action :
          (a : RoutingAction)
          → (consume_action router a row c w).1.pending_range_start ≡ (elim a [
            | skip ↦ c.pending_range_start
            | range_delete_start ↦ elim (extract_range_delete_start row) [
              | inl e ↦ c.pending_range_start
              | inr p ↦ some p
            ]
            | range_delete_end ↦ none
            | forward op ↦ c.pending_range_start
          ])
      by_action skip = refl
      by_action range_delete_start = ground arith
      by_action range_delete_end = ground arith
      by_action (forward op) = refl

  -- After any rows the consumer holds the start bound of the last readable start row that no end row
  -- follows; without such rows, what it held before.
  pub pending-consumed :
      (rows : List Row) (c : Consumer) (w : State)
      → (consumed rows c w).0.pending_range_start ≡ open_start rows c.pending_range_start
  pending-consumed [] c w = refl
  pending-consumed (row ∷ rows) c w =
      let r = consume_cdc router row c w in
      pending-consumed rows r.1 r.2 ∙ ap (open_start rows) (pending-consume_cdc row c w)
