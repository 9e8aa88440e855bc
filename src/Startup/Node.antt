-- ===== src/Startup/Node.antt =====
-- `main` of rust/node/src/main.rs, up to the server.
use Prim.Native.String
use tantylla.Base.{ℕ, String, Option}
use tantylla.Engine.Index.{Tantivy}
use tantylla.Engine.State.{Engine}
use tantylla.Engine.Open.{Storage, NewError, Opened, opened, unopened, new_engine}
use tantylla.Startup.Args.{NodeArgs}
use tantylla.Startup.Logger.{debug_config, init_logger_with_config_and_layer}
use tantylla.Startup.Start.{Start, running, stopped, ◌>>=◌, or_panic, Process, test_layer}

-- `AdaptiveConfig`
pub record AdaptiveConfig : Type 0 where
  pub commit_interval_secs : ℕ

unfoldable pub default_adaptive_config : AdaptiveConfig
default_adaptive_config = record { commit_interval_secs = 5 }

pub data NodeError : Type 0 where
  no_test_layer : NodeError
  no_engine : NewError → NodeError

pub record RunningNode (tantivy : Tantivy) (SocketAddr : Type 0) : Type 0 where
  pub listens_on : SocketAddr
  pub path : String
  pub config : AdaptiveConfig
  pub engine : Engine tantivy

module _ (process : Process) (tantivy : Tantivy) (storage : Storage tantivy) where
  open process use {tracing, number_text}

  -- `format!("{}:{}", args.address, args.port)`, and the directory of the index
  abbrev pub socket_text : NodeArgs → String
  socket_text args = String.◌++◌ args.address (String.◌++◌ ":" (number_text args.port))

  abbrev pub index_path : NodeArgs → String
  index_path args = String.◌++◌ "./index-" (number_text args.port)

  abbrev from_opened : Opened tantivy → Start NodeError (Engine tantivy)
  from_opened (opened e) = running e
  from_opened (unopened e) = stopped (no_engine e)

  unfoldable pub node_main :
      {SocketAddr : Type 0}
      → (String → Option SocketAddr)
      → NodeArgs
      → storage.Disk
      → Start NodeError (RunningNode tantivy SocketAddr)
  unfolding test_layer
  node_main {SocketAddr} parse_address args disk = do
    layer ← test_layer process no_test_layer args.test_event_port
    guard ← or_panic (init_logger_with_config_and_layer tracing debug_config layer)
    address ← or_panic (parse_address (socket_text args))
    let config : AdaptiveConfig = record { commit_interval_secs = args.commit_interval_secs }
    engine ← from_opened (new_engine tantivy storage (index_path args) disk)
    running
        (record { listens_on = address; path = index_path args; config = config; engine = engine })
