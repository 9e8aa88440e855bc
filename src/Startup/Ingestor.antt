-- ===== src/Startup/Ingestor.antt =====
-- `main` of rust/ingestor/src/main.rs: the steps to the running reader, and the end of the process.
use Prim.Native.String
use tantylla.Base.{ℕ, String, Bool, true, false, Option, none, some, List}
use tantylla.Base.Int.{ℤ}
use tantylla.Batcher.Service.{World, Service, new_service, flush}
use tantylla.Routing.Forward.{Router}
use tantylla.Routing.Setup.{ColumnRow, node_info_of, keyspace_and_table, key_info_of, new_router}
use tantylla.Startup.Args.{IngestorArgs}
use tantylla.Startup.Logger.{debug_config, init_logger_with_config_and_layer}
use tantylla.Startup.Start.{Start, running, ◌>>=◌, or_stop, or_panic, Process, test_layer}

-- The options of the CDC reader.
pub record ReaderConfig : Type 0 where
  pub keyspace : String
  pub table_name : String
  pub checkpoint_table : String
  pub safety_interval_ms : ℕ
  pub sleep_interval_ms : ℕ
  pub should_save_progress : Bool
  pub should_load_progress : Bool
  -- in microseconds
  pub start_timestamp : ℤ

-- ScyllaDB's driver and its CDC library.
pub record Scylla : Type 1 where
  pub Session : Type 0
  pub Saver : Type 0
  pub Reader : Type 0
  pub connect : List String → Option Session
  -- the rows of `system_schema.columns` for a keyspace and a table
  pub query_columns : Session → String → String → Option (List ColumnRow)
  pub new_saver : Session → String → String → Option Saver
  pub build_reader : Session → Saver → ReaderConfig → Option Reader

pub data IngestorError : Type 0 where
  no_test_layer no_session table_name_format no_router no_checkpoint_saver no_reader : IngestorError

pub record RunningIngestor (Reader : Type 0) : Type 0 where
  pub reader : Reader
  pub router : Router
  pub service : Service
  pub config : ReaderConfig

abbrev pub start_timestamp_of : Option ℤ → ℤ → ℤ
start_timestamp_of none now = now
start_timestamp_of (some micros) now = micros

-- How the `select!` ends: a signal, or the end of the reader's task.
pub data End : Type 0 where
  ctrl_c reader_finished reader_crashed : End

module _ (process : Process) (scylla : Scylla) where
  open process use {tracing}
  open scylla use {Reader, connect, query_columns, new_saver, build_reader}

  -- `now` is the time in microseconds.
  unfoldable pub ingestor_main : IngestorArgs → ℤ → Start IngestorError (RunningIngestor Reader)
  unfolding test_layer
  ingestor_main args now = do
    let start_timestamp = start_timestamp_of args.start_timestamp_micros now
    layer ← test_layer process no_test_layer args.test_event_port
    guard ← or_panic (init_logger_with_config_and_layer tracing debug_config layer)
    session ← or_stop no_session (connect args.scylla_uri)
    let node_info = node_info_of args.search_nodes
    (keyspace, table) ← or_stop table_name_format (keyspace_and_table args.table_name)
    rows ← or_stop no_router (query_columns session keyspace table)
    let checkpoint_table = String.◌++◌ table "_tantylla_checkpoints"
    saver ← or_stop no_checkpoint_saver (new_saver session keyspace checkpoint_table)
    let config : ReaderConfig = record {
      keyspace = keyspace;
      table_name = table;
      checkpoint_table = checkpoint_table;
      safety_interval_ms = args.safety_interval;
      sleep_interval_ms = args.sleep_interval;
      should_save_progress = true;
      should_load_progress = true;
      start_timestamp = start_timestamp;
    }
    reader ← or_stop no_reader (build_reader session saver config)
    running (record {
      reader = reader;
      router = new_router node_info (key_info_of rows);
      service = new_service;
      config = config;
    })

-- What `main` does when the `select!` has ended: whether it returns an error, and the service and the world
-- that it leaves. The error of the flush is logged.
unfoldable pub finish_main :
    (world : World) → End → Service → world.State → Bool × Service × world.State
finish_main world ctrl_c s w = let (e, s', w') = flush world s w in (false, s', w')
finish_main world reader_finished s w = (false, s, w)
finish_main world reader_crashed s w = (true, s, w)
