-- ===== src/Routing/Consumer.antt =====
-- rust/ingestor/src/cdc/consumer.rs: the consumer of one stream. The router is an interface: what it
-- does to the batch service and the nodes is a state that the calls pass on.
use tantylla.Base.{Option, none, some, ◌⊎◌, inl, inr}
use tantylla.Indexer.{OpType}
use tantylla.Routing.Action.{
  OperationType, PendingRangeStart, RoutingAction, skip, range_delete_start, range_delete_end,
  forward, determine,
}

-- `scylla_cdc`'s rows and the router's operations; `none` is `Ok(())`.
pub record Router : Type 1 where
  pub Row : Type 0
  pub State : Type 0
  pub Error : Type 0
  pub operation : Row → OperationType
  pub extract_range_delete_start : Row → Error ⊎ PendingRangeStart
  pub commit_range_delete : PendingRangeStart → Row → State → Option Error × State
  pub route_forward : Row → OpType → State → Option Error × State

-- The error of a row, under its context.
pub data ConsumeError (E : Type 0) : Type 0 where
  extract_start commit_range route : E → ConsumeError E
  no_matching_start : ConsumeError E

pub record Consumer : Type 0 where
  pub pending_range_start : Option PendingRangeStart

unfoldable pub new_consumer : Consumer
new_consumer = record { pending_range_start = none }

abbrev pub in_context {ℓ} : {A : Type ℓ} {B : Type ℓ} → (A → B) → Option A → Option B
in_context f none = none
in_context f (some a) = some (f a)

module _ (router : Router) where
  open router use {
    Row, State, Error, operation, extract_range_delete_start, commit_range_delete, route_forward,
  }

  -- The arms of `match action`.
  unfoldable pub start_range : Row → Consumer → Option (ConsumeError Error) × Consumer
  start_range row c = elim (extract_range_delete_start row) [
    | inl e ↦ (some (extract_start e), c)
    | inr pending ↦ (none, record c { pending_range_start = some pending })
  ]

  -- The pending start is taken before the range is resolved, also when that fails.
  unfoldable pub end_range :
      Row
      → Option PendingRangeStart
      → Consumer
      → State
      → Option (ConsumeError Error) × Consumer × State
  end_range row none c w = (some no_matching_start, c, w)
  end_range row (some start) c w =
      let (e, w') = commit_range_delete start row w in
      (in_context commit_range e, record c { pending_range_start = none }, w')

  unfoldable pub consume_action :
      RoutingAction → Row → Consumer → State → Option (ConsumeError Error) × Consumer × State
  consume_action skip row c w = (none, c, w)
  consume_action range_delete_start row c w = let (e, c') = start_range row c in (e, c', w)
  consume_action range_delete_end row c w = end_range row c.pending_range_start c w
  consume_action (forward op_type) row c w =
      let (e, w') = route_forward row op_type w in (in_context route e, c, w')

  unfoldable pub consume_cdc :
      Row → Consumer → State → Option (ConsumeError Error) × Consumer × State
  consume_cdc row c w = consume_action (determine (operation row)) row c w
