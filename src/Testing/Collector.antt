-- ===== src/Testing/Collector.antt =====
-- rust/testing/src/trace/core.rs: the collector's loop over the datagrams of its socket. A receive is the
-- bytes of a datagram, or none where it fails; serde_json's two readings of the bytes are parameters.
use tantylla.Base.{
  ℕ, String, Option, none, some, List, [], ◌∷◌, ◌++◌, take, map, ◌==◌, if◌then◌else◌,
}
use tantylla.Json.Value.{Value, string, object, get}
use tantylla.Testing.Events.{TestEventSource, gateway, ingestor, node, unspecified, TracePayload}
use tantylla.Testing.Trace.{TraceEvent, TraceSequence, wait_for_sequence_after}

pub record Reader : Type 1 where
  pub Bytes : Type 0
  pub value_from_slice : Bytes → Option Value
  pub payload_from_slice : Bytes → Option TracePayload

-- TestEventSource::from_str
unfoldable pub source_from_str : String → Option TestEventSource
source_from_str s =
    if s == "Gateway"
    then some gateway
    else if s == "Ingestor"
    then some ingestor
    else if s == "Node"
    then some node
    else if s == "Unspecified"
    then some unspecified
    else none

abbrev as_str : Option Value → Option String
as_str (some (string s)) = some s
as_str _ = none

abbrev or_unspecified : Option String → String
or_unspecified none = "Unspecified"
or_unspecified (some s) = s

unfoldable pub source_text : Value → String
unfolding get
source_text (object fields) = or_unspecified (as_str (get "source" fields))
source_text _ = "Unspecified"

-- What the loop does with a datagram: the `continue`s, the panic of `unwrap`, or the event.
pub data Received : Type 0 where
  skipped unknown_source : Received
  traced : TraceEvent → Received

-- The state of the loop: at its next receive, left, or ended by the panic.
pub data Listener : Type 0 where
  listening closed panicked : Listener

-- The rest of a turn of the loop, before the turns that follow.
abbrev pub after_received :
    Received
    → List TraceEvent
    → (List TraceEvent → List TraceEvent × Listener)
    → List TraceEvent × Listener
after_received skipped events turns = turns events
after_received unknown_source events turns = (events, panicked)
after_received (traced event) events turns = turns (events ++ event ∷ [])

module _ (reader : Reader) where
  open reader use {Bytes, value_from_slice, payload_from_slice}

  abbrev traced_payload : TestEventSource → Option TracePayload → Received
  traced_payload source none = skipped
  traced_payload source (some payload) = traced (record { source = source; payload = payload })

  abbrev received_from : Option TestEventSource → Bytes → Received
  received_from none bytes = unknown_source
  received_from (some source) bytes = traced_payload source (payload_from_slice bytes)

  unfoldable pub received : Bytes → Received
  unfolding source_from_str source_text
  received bytes = elim (value_from_slice bytes) [
    | none ↦ skipped
    | some json ↦ received_from (source_from_str (source_text json)) bytes
  ]

  -- The events after some receives, and the state of the loop.
  unfoldable pub listen : List (Option Bytes) → List TraceEvent → List TraceEvent × Listener
  unfolding received
  listen [] events = (events, listening)
  listen (none ∷ receives) events = (events, closed)
  listen (some bytes ∷ receives) events =
      after_received (received bytes) events (λ es. listen receives es)

  -- `snapshot` when the loop has had a number of the receives.
  unfoldable pub snapshot : List (Option Bytes) → ℕ → List TraceEvent
  unfolding listen
  snapshot receives n = (listen (take n receives) []).0

  -- A wait that looks at the events after these numbers of receives until its deadline.
  unfoldable pub wait_at :
      List (Option Bytes) → List ℕ → TraceSequence → ℕ → Option (List TraceEvent × ℕ)
  unfolding snapshot wait_for_sequence_after
  wait_at receives times sequence start_from =
      wait_for_sequence_after (map (snapshot receives) times) sequence start_from
