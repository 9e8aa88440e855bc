-- ===== src/Startup/Args.antt =====
-- The options of the binaries, from the text that is given for each. The splitting of the command line and
-- the parsing of numbers are clap's.
use tantylla.Base.{ℕ, String, Bool, true, false, Option, none, some, List, ◌≡◌, if◌then◌else◌}
use tantylla.Base.Int.{ℤ}
use tantylla.Base.Assoc.{lookup}
use tantylla.Base.Text.{is_char, contains_char, split_by}

-- The text of each option that is given, under its long name.
abbrev pub Given : Type 0
Given = List (String × String)

pub record Clap : Type 0 where
  pub parse_u16 : String → Option ℕ
  pub parse_u64 : String → Option ℕ
  pub parse_i64 : String → Option ℤ
  -- Rust's parsers of integers take digits and a sign alone.
  pub no_underscore : (s : String) → contains_char (is_char b'_') s ≡ true → parse_u64 s ≡ none

infixl 5 ◌>>=◌
abbrev pub ◌>>=◌ {ℓ κ} : {A : Type ℓ} {B : Type κ} → Option A → (A → Option B) → Option B
none >>= f = none
some a >>= f = f a

-- `default_value`: the default is a text, which is parsed as a given one is.
abbrev pub with_default {ℓ} :
    {A : Type ℓ} → String → String → (String → Option A) → Given → Option A
with_default name default parse given = elim (lookup name given) [
  | none ↦ parse default
  | some value ↦ parse value
]

-- An `Option`: absent, or given and parsed.
abbrev pub optional {ℓ} : {A : Type ℓ} → String → (String → Option A) → Given → Option (Option A)
optional name parse given = elim (lookup name given) [
  | none ↦ some none
  | some value ↦ (do a ← parse value; some (some a))
]

-- `value_delimiter = ','`
unfoldable pub delimited : String → List String
unfolding split_by
delimited value = split_by (is_char b',') value

-- An option that only a debug build has, which a release build refuses.
abbrev pub debug_only {ℓ} :
    {A : Type ℓ} → Bool → String → (String → Option A) → Given → Option (Option A)
debug_only true name parse given = optional name parse given
debug_only false name parse given = elim (lookup name given) [
  | none ↦ some none
  | some value ↦ none
]

pub record NodeArgs : Type 0 where
  pub port : ℕ
  pub address : String
  pub commit_interval_secs : ℕ
  pub test_event_port : Option ℕ

pub record GatewayArgs : Type 0 where
  pub port : ℕ
  pub address : String
  pub search_nodes : List String
  pub test_event_port : Option ℕ

pub record IngestorArgs : Type 0 where
  pub scylla_uri : List String
  pub table_name : String
  pub search_nodes : List String
  pub safety_interval : ℕ
  pub sleep_interval : ℕ
  pub test_event_port : Option ℕ
  pub start_timestamp_micros : Option ℤ

-- The defaults of the two intervals, in a debug build and in a release build.
abbrev pub default_safety_interval : Bool → String
default_safety_interval debug = if debug then "500" else "30_000"

abbrev pub default_sleep_interval : Bool → String
default_sleep_interval debug = if debug then "500" else "10_000"

-- Whether it is a debug build comes first.
module _ (clap : Clap) (debug : Bool) where
  open clap use {parse_u16, parse_u64, parse_i64}

  unfoldable pub parse_node_args : Given → Option NodeArgs
  parse_node_args given = do
    port ← with_default "port" "10000" parse_u16 given
    address ← with_default "address" "[::1]" some given
    commit_interval_secs ← with_default "commit-interval-secs" "5" parse_u64 given
    test_event_port ← debug_only debug "test-event-port" parse_u16 given
    some (record {
      port = port;
      address = address;
      commit_interval_secs = commit_interval_secs;
      test_event_port = test_event_port;
    })

  unfoldable pub parse_gateway_args : Given → Option GatewayArgs
  unfolding delimited
  parse_gateway_args given = do
    port ← with_default "port" "8080" parse_u16 given
    address ← with_default "address" "0.0.0.0" some given
    search_nodes ← lookup "search-nodes" given
    test_event_port ← debug_only debug "test-event-port" parse_u16 given
    some (record {
      port = port;
      address = address;
      search_nodes = delimited search_nodes;
      test_event_port = test_event_port;
    })

  unfoldable pub parse_ingestor_args : Given → Option IngestorArgs
  unfolding delimited
  parse_ingestor_args given = do
    scylla_uri ← lookup "scylla-uri" given
    table_name ← lookup "table-name" given
    search_nodes ← lookup "search-nodes" given
    safety_interval ← with_default "safety-interval" (default_safety_interval debug) parse_u64 given
    sleep_interval ← with_default "sleep-interval" (default_sleep_interval debug) parse_u64 given
    test_event_port ← debug_only debug "test-event-port" parse_u16 given
    start_timestamp_micros ← debug_only debug "start-timestamp-micros" parse_i64 given
    some (record {
      scylla_uri = delimited scylla_uri;
      table_name = table_name;
      search_nodes = delimited search_nodes;
      safety_interval = safety_interval;
      sleep_interval = sleep_interval;
      test_event_port = test_event_port;
      start_timestamp_micros = start_timestamp_micros;
    })
