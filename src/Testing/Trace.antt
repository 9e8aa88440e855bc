-- ===== src/Testing/Trace.antt =====
-- rust/testing/src/trace/core.rs: sequences of events and their match in a trace. A wait is modelled by
-- the snapshots that it takes until its deadline.
use tantylla.Base.{
  ℕ, ◌+◌, Bool, false, ◌&&◌, Option, none, some, List, [], ◌∷◌, ◌++◌, drop, if◌then◌else◌,
}
use tantylla.Testing.Events.{
  TestEventSource, TracePayload, TestEvent, test_event_of, is_same_source, is_same_event,
}

pub record TraceEvent : Type 0 where
  pub source : TestEventSource
  pub payload : TracePayload

pub record TraceSequenceStep : Type 0 where
  pub source : Option TestEventSource
  pub event : TestEvent

pub record TraceSequence : Type 0 where
  pub steps : List TraceSequenceStep

abbrev new_sequence : TraceSequence
new_sequence = record { steps = [] }

-- TraceSequence::event and ::event_from_source
unfoldable pub event : TestEvent → TraceSequence → TraceSequence
event e sequence = record { steps = sequence.steps ++ record { source = none; event = e } ∷ [] }

unfoldable pub event_from_source : TestEventSource → TestEvent → TraceSequence → TraceSequence
event_from_source source e sequence = record {
  steps = sequence.steps ++ record { source = some source; event = e } ∷ [];
}

unfoldable pub matches : TraceSequenceStep → TraceEvent → Bool
unfolding test_event_of
matches step e =
    let same = is_same_event (test_event_of e.payload) step.event in
    elim step.source [
      | none ↦ same
      | some source ↦ if is_same_source source e.source then same else false
    ]

-- The inner loop, on the events that the cursor has not skipped, with the index of the first of them.
unfoldable pub find_step : TraceSequenceStep → ℕ → List TraceEvent → Option (ℕ × TraceEvent)
find_step step idx [] = none
find_step step idx (e ∷ events) =
    let rest = find_step step (idx + 1) events in if matches step e then some (idx, e) else rest

abbrev pub matched_first : TraceEvent → Option (List TraceEvent × ℕ) → Option (List TraceEvent × ℕ)
matched_first e none = none
matched_first e (some (matched, cursor)) = some (e ∷ matched, cursor)

-- The outer loop.
unfoldable pub match_steps :
    List TraceEvent → List TraceSequenceStep → ℕ → Option (List TraceEvent × ℕ)
unfolding find_step
match_steps events [] cursor = some ([], cursor)
match_steps events (step ∷ steps) cursor = elim (find_step step cursor (drop cursor events)) [
  | none ↦ none
  | some (idx, e) ↦ matched_first e (match_steps events steps (idx + 1))
]

unfoldable pub match_sequence_from :
    List TraceEvent → TraceSequence → ℕ → Option (List TraceEvent × ℕ)
unfolding match_steps
match_sequence_from events sequence start_from = match_steps events sequence.steps start_from

-- `none` where the deadline passes.
unfoldable pub wait_for_sequence_after :
    List (List TraceEvent) → TraceSequence → ℕ → Option (List TraceEvent × ℕ)
unfolding match_sequence_from
wait_for_sequence_after [] sequence start_from = none
wait_for_sequence_after (events ∷ snapshots) sequence start_from =
    let later = wait_for_sequence_after snapshots sequence start_from in
    elim (match_sequence_from events sequence start_from) [ none ↦ later | some found ↦ some found ]

-- `wait_for_event`, on the snapshots until the deadline.
abbrev first_event : (TraceEvent → Bool) → List TraceEvent → Option TraceEvent
first_event predicate [] = none
first_event predicate (e ∷ events) =
    let rest = first_event predicate events in if predicate e then some e else rest

unfoldable wait_for_event : (TraceEvent → Bool) → List (List TraceEvent) → Option TraceEvent
wait_for_event predicate [] = none
wait_for_event predicate (events ∷ snapshots) =
    let later = wait_for_event predicate snapshots in
    elim (first_event predicate events) [ none ↦ later | some e ↦ some e ]

unfoldable wait_for_event_name : TestEvent → List (List TraceEvent) → Option TraceEvent
unfolding wait_for_event test_event_of
wait_for_event_name event_name snapshots =
    wait_for_event (λ e. is_same_event (test_event_of e.payload) event_name) snapshots

unfoldable wait_for_event_from_source :
    TestEventSource → TestEvent → List (List TraceEvent) → Option TraceEvent
unfolding wait_for_event test_event_of
wait_for_event_from_source source event_name snapshots =
    wait_for_event
      (λ e. is_same_source e.source source && is_same_event (test_event_of e.payload) event_name)
      snapshots
