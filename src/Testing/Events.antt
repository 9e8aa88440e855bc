-- ===== src/Testing/Events.antt =====
-- rust/common/src/tracing/events.rs. `TestEvent` is the discriminant of `TracePayload` that strum
-- derives.
use tantylla.Base.{ℕ, String, Bool, Option, List, eqb}
use tantylla.Base.Int.{ℤ}

pub data TestEventSource : Type 0 where
  gateway ingestor node unspecified : TestEventSource

pub data TracePayload : Type 0 where
  startup gateway_scatter_gather_enter engine_search_enter : TracePayload
  batch_add_enter batch_add_failure engine_process_batch_enter : TracePayload
  search_request : (query : String) (limit offset : ℕ) (consistency : ℤ) → TracePayload
  search_response : (hit_count total_hits duration_ms : ℕ) → TracePayload
  search_failure : (message : Option String) → TracePayload
  index_batch_request : (operation_count : ℕ) → TracePayload
  index_batch_failure : (error : Option String) → TracePayload
  batch_flush_start : (table : String) (item_count : ℕ) → TracePayload
  batch_flush_node_success :
      (table target_node : String) (processed_count skipped_count : ℕ) (success : Bool)
      → TracePayload
  batch_flush_node_failure : (table target_node error : String) → TracePayload
  batch_flush_failed : (table : String) (failed_nodes : List String) → TracePayload
  batch_flush_success : (table : String) → TracePayload
  cdc_row_received : (operation : String) → TracePayload
  cdc_row_routed : (node_count : ℕ) → TracePayload
  cdc_row_route_failure unknown : TracePayload
  index_batch_response : (processed_count skipped_count : ℕ) (success : Bool) → TracePayload

pub data TestEvent : Type 0 where
  startup gateway_scatter_gather_enter search_request search_response search_failure : TestEvent
  engine_search_enter batch_add_enter batch_add_failure engine_process_batch_enter : TestEvent
  index_batch_request index_batch_failure batch_flush_start batch_flush_node_success : TestEvent
  batch_flush_node_failure batch_flush_failed batch_flush_success cdc_row_received : TestEvent
  cdc_row_routed cdc_row_route_failure index_batch_response unknown : TestEvent

-- TestEvent::from(&payload)
unfoldable pub test_event_of : TracePayload → TestEvent
test_event_of startup = TestEvent.startup
test_event_of gateway_scatter_gather_enter = TestEvent.gateway_scatter_gather_enter
test_event_of engine_search_enter = TestEvent.engine_search_enter
test_event_of batch_add_enter = TestEvent.batch_add_enter
test_event_of batch_add_failure = TestEvent.batch_add_failure
test_event_of engine_process_batch_enter = TestEvent.engine_process_batch_enter
test_event_of (search_request query limit offset consistency) = TestEvent.search_request
test_event_of (search_response hit_count total_hits duration_ms) = TestEvent.search_response
test_event_of (search_failure message) = TestEvent.search_failure
test_event_of (index_batch_request operation_count) = TestEvent.index_batch_request
test_event_of (index_batch_failure error) = TestEvent.index_batch_failure
test_event_of (batch_flush_start table item_count) = TestEvent.batch_flush_start
test_event_of (batch_flush_node_success table target_node n m success) =
    TestEvent.batch_flush_node_success
test_event_of (batch_flush_node_failure table target_node error) =
    TestEvent.batch_flush_node_failure
test_event_of (batch_flush_failed table failed_nodes) = TestEvent.batch_flush_failed
test_event_of (batch_flush_success table) = TestEvent.batch_flush_success
test_event_of (cdc_row_received operation) = TestEvent.cdc_row_received
test_event_of (cdc_row_routed node_count) = TestEvent.cdc_row_routed
test_event_of cdc_row_route_failure = TestEvent.cdc_row_route_failure
test_event_of unknown = TestEvent.unknown
test_event_of (index_batch_response n m success) = TestEvent.index_batch_response

-- The derived equalities compare the numbers of the variants.
abbrev source_number : TestEventSource → ℕ
source_number gateway = 0
source_number ingestor = 1
source_number node = 2
source_number unspecified = 3

abbrev event_number : TestEvent → ℕ
event_number TestEvent.startup = 0
event_number TestEvent.gateway_scatter_gather_enter = 1
event_number TestEvent.search_request = 2
event_number TestEvent.search_response = 3
event_number TestEvent.search_failure = 4
event_number TestEvent.engine_search_enter = 5
event_number TestEvent.batch_add_enter = 6
event_number TestEvent.batch_add_failure = 7
event_number TestEvent.engine_process_batch_enter = 8
event_number TestEvent.index_batch_request = 9
event_number TestEvent.index_batch_failure = 10
event_number TestEvent.batch_flush_start = 11
event_number TestEvent.batch_flush_node_success = 12
event_number TestEvent.batch_flush_node_failure = 13
event_number TestEvent.batch_flush_failed = 14
event_number TestEvent.batch_flush_success = 15
event_number TestEvent.cdc_row_received = 16
event_number TestEvent.cdc_row_routed = 17
event_number TestEvent.cdc_row_route_failure = 18
event_number TestEvent.index_batch_response = 19
event_number TestEvent.unknown = 20

abbrev pub is_same_source : TestEventSource → TestEventSource → Bool
is_same_source a b = eqb (source_number a) (source_number b)

abbrev pub is_same_event : TestEvent → TestEvent → Bool
is_same_event a b = eqb (event_number a) (event_number b)
