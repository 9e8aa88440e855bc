-- ===== src/Startup/Tests.antt =====
-- Examples: clap's parsers by those of the standard library, and a start of each binary.
use Prim.Native.Char.{code}
use tantylla.Base.{
  ℕ, ◌+◌, ◌-◌, ◌*◌, ◌^◌, ◌≡◌, refl, String, true, false, none, some, List, [], ◌∷◌, arith,
}
use tantylla.Base.Int.{pos}
use tantylla.Base.Assoc.{lookup}
use tantylla.Base.Text.{is_char, contains_char}
use tantylla.Base.Numbers.{parse_digits, digits, parse_unsigned, parse_i64}
use tantylla.Batcher.Service.{new_service}
use tantylla.Startup.Start.{Process}
use tantylla.Startup.Gateway.{RunningGateway, create_router}
use tantylla.Startup.Ingestor.{Scylla, ReaderConfig, RunningIngestor}
use tantylla.Startup.Args.{Clap, Given, delimited, IngestorArgs, GatewayArgs, parse_ingestor_args}
use tantylla.Startup.Defaults.{parse_ingestor_args-defaults}

parse_digits-none :
    (s : String) (n : ℕ) → contains_char (is_char b'_') s ≡ true → parse_digits s n ≡ none
unfolding parse_digits contains_char
parse_digits-none String.[] n h = absurd (cc)
parse_digits-none (String.◌∷◌ c s) n h =
    ground (arith, parse_digits-none s (n * 10 + (code c - b'0')))

digits-none : (s : String) → contains_char (is_char b'_') s ≡ true → digits s ≡ none
digits-none String.[] h = unfold contains_char in absurd (cc h)
digits-none (String.◌∷◌ c s) h = parse_digits-none (String.◌∷◌ c s) 0 h

parse_unsigned-none :
    (bound : ℕ) (s : String) → contains_char (is_char b'_') s ≡ true → parse_unsigned bound s ≡ none
unfolding parse_unsigned contains_char parse_digits
parse_unsigned-none bound String.[] h = absurd (cc)
parse_unsigned-none bound (String.◌∷◌ c s) h =
    ground (arith, digits-none s, parse_digits-none s (0 + (code c - b'0')))

abbrev std_clap : Clap
std_clap = record {
  parse_u16 = parse_unsigned 65535;
  parse_u64 = parse_unsigned (2 ^ 64 - 1);
  parse_i64 = parse_i64;
  no_underscore = parse_unsigned-none (2 ^ 64 - 1);
}

abbrev options : Given
options =
    ("scylla-uri", "a:9042,b:9042")
    ∷ ("table-name", "shop.items")
    ∷ ("search-nodes", "y:2,x:1")
    ∷ []

parse_ingestor_args-defaults_example :
    (parse_ingestor_args std_clap false options ≡ none)
    × (parse_ingestor_args std_clap true options
        ≡ some (record {
          scylla_uri = "a:9042" ∷ "b:9042" ∷ [];
          table_name = "shop.items";
          search_nodes = "y:2" ∷ "x:1" ∷ [];
          safety_interval = 500;
          sleep_interval = 500;
          test_event_port = none;
          start_timestamp_micros = none;
        }))
unfolding delimited lookup parse_unsigned parse_digits
parse_ingestor_args-defaults_example =
    parse_ingestor_args-defaults std_clap options "a:9042,b:9042" "shop.items" "y:2,x:1" refl refl
      refl refl refl refl refl refl

abbrev plain_process : Process
plain_process = record {
  tracing = record {
    EnvFilter = String;
    Layer = String;
    try_from_default_env = none;
    new_filter = λ level. level;
    creates = λ path. true;
    registered = false;
  };
  connect_layer = λ port. none;
  number_text = λ n. "8080";
}

abbrev local_scylla : Scylla
local_scylla = record {
  Session = List String;
  Saver = String;
  Reader = ReaderConfig;
  connect = λ uris. some uris;
  query_columns = λ session keyspace table. some [];
  new_saver = λ session keyspace table. some table;
  build_reader = λ session saver config. some config;
}

abbrev ingestor_args : IngestorArgs
ingestor_args = record {
  scylla_uri = "a:9042" ∷ "b:9042" ∷ [];
  table_name = "shop.items";
  search_nodes = "y:2" ∷ "x:1" ∷ [];
  safety_interval = 500;
  sleep_interval = 500;
  test_event_port = none;
  start_timestamp_micros = none;
}

abbrev gateway_args : GatewayArgs
gateway_args = record {
  port = 8080;
  address = "0.0.0.0";
  search_nodes = "y:2" ∷ "x:1" ∷ [];
  test_event_port = none;
}

abbrev reader_config : ReaderConfig
reader_config = record {
  keyspace = "shop";
  table_name = "items";
  checkpoint_table = "items_tantylla_checkpoints";
  safety_interval_ms = 500;
  sleep_interval_ms = 500;
  should_save_progress = true;
  should_load_progress = true;
  start_timestamp = pos 7;
}

abbrev ingestor : RunningIngestor ReaderConfig
ingestor = record {
  reader = reader_config;
  router = record {
    node_info = (0, "x:1") ∷ (1, "y:2") ∷ [];
    full_primary_key_columns = [];
    columns = record { partition_key_columns = []; clustering_key_columns = [] };
  };
  service = new_service;
  config = reader_config;
}

abbrev gateway : RunningGateway String String
gateway = record {
  clients = "http://x:1" ∷ "http://y:2" ∷ [];
  listener = "0.0.0.0:8080";
  routes = create_router;
}
