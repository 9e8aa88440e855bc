-- ===== src/Testing/Tests.antt =====
-- Examples: the trace of a search over one node.
use tantylla.Base.{
  arith, ℕ, String, ◌+◌, ◌-◌, ◌≤◌, ◌≡◌, refl, none, some, List, [], ◌∷◌, drop, take,
}
use tantylla.Base.Int.{pos}
use tantylla.Json.Value.{null, string, object, Fields, end, get, entry}
use tantylla.Testing.Layer.{
  record_str, record_u64, record_debug, name_of, value_of, visit, on_new_span, on_event,
  get-on_event,
}
use tantylla.Testing.Events.{
  gateway, node, TestEvent, TracePayload, search_request, search_response,
}
use tantylla.Testing.Trace.{TraceEvent, TraceSequence, match_sequence_from, matches}
use tantylla.Testing.Collector.{
  Reader, source_from_str, source_text, received, listen, snapshot, wait_at,
}
use tantylla.Testing.Growth.{wait_at-last}
use tantylla.Testing.Occurrence.{Occurs, AreMatched, match_sequence_from-Occurs}

abbrev trace : List TraceEvent
trace =
    record { source = gateway; payload = search_request "red" 10 0 (pos 1) }
    ∷ record { source = node; payload = TracePayload.engine_search_enter }
    ∷ record { source = node; payload = search_response 1 1 5 }
    ∷ record { source = gateway; payload = search_response 1 1 7 }
    ∷ []

-- The gateway's response; that of the node does not count.
abbrev answered : TraceSequence
answered = record {
  steps =
      record { source = none; event = TestEvent.engine_search_enter }
      ∷ record { source = some gateway; event = TestEvent.search_response }
      ∷ [];
}

answered_run :
    match_sequence_from trace answered 0
    ≡ some (
      record { source = node; payload = TracePayload.engine_search_enter }
          ∷ record { source = gateway; payload = search_response 1 1 7 }
          ∷ [],
      4,
    )
unfolding match_sequence_from matches
answered_run = refl

match_sequence_from-Occurs_example :
    ((n : ℕ)
      → Occurs answered.steps (take n (drop 1 trace))
      → (r : List TraceEvent × ℕ) × (match_sequence_from trace answered 1 ≡ some r) × (r.1 ≤ 1 + n))
    × ((r : List TraceEvent × ℕ)
        → match_sequence_from trace answered 1 ≡ some r
        → (1 ≤ r.1)
          × Occurs answered.steps (take (r.1 - 1) (drop 1 trace))
          × AreMatched answered.steps r.0)
match_sequence_from-Occurs_example = match_sequence_from-Occurs trace answered 1

-- The table of the span is used, as a text since it is no JSON; its source is not.
get-on_event_example :
    (payload : Fields) × (on_event
        (λ s. none)
        (λ n. null)
        "test_event"
        (record_str "source" "Node" ∷ record_u64 "limit" 1 ∷ record_u64 "limit" 2 ∷ [])
        (on_new_span
            (λ s. none)
            (λ n. null)
            (record_str "source" "Gateway" ∷ record_debug "table" "users" ∷ [])
          ∷ [])
      ≡ some (object payload))
    × (get "table" payload ≡ some (string "users"))
unfolding name_of value_of get on_new_span visit entry
get-on_event_example =
    get-on_event (λ s. none) (λ n. null) "table"
      (record_str "source" "Node" ∷ record_u64 "limit" 1 ∷ record_u64 "limit" 2 ∷ [])
      (on_new_span (λ s. none) (λ n. null)
          (record_str "source" "Gateway" ∷ record_debug "table" "users" ∷ [])
        ∷ [])

-- The bytes are the text of the source, and every payload is the same.
abbrev plain_reader : Reader
plain_reader = record {
  Bytes = String;
  value_from_slice = λ bytes. some (object (entry "source" null (λ _. string bytes) end));
  payload_from_slice = λ bytes. some TracePayload.engine_search_enter;
}

abbrev on_node : TraceSequence
on_node = record {
  steps = record { source = some node; event = TestEvent.engine_search_enter } ∷ [];
}

-- The third datagram has an unknown source, and the fourth is not received.
wait_at-last_example :
    wait_at plain_reader
      (some "Gateway" ∷ some "Node" ∷ some "?" ∷ some "Node" ∷ [])
      (0 ∷ 1 ∷ 4 ∷ [])
      on_node
      0
    ≡ some (record { source = node; payload = TracePayload.engine_search_enter } ∷ [], 2)
unfolding snapshot listen received source_from_str source_text get entry match_sequence_from matches
wait_at-last_example =
    wait_at-last plain_reader (some "Gateway" ∷ some "Node" ∷ some "?" ∷ some "Node" ∷ []) 0
      (1 ∷ 4 ∷ []) on_node 0 (omega arith, (omega arith, tt))
