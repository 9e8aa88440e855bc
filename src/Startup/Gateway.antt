-- ===== src/Startup/Gateway.antt =====
-- `main` of rust/gateway/src/main.rs, up to the server, and the routes of
-- rust/gateway/src/server/router.rs.
use Prim.Native.String
use tantylla.Base.{String, Option, none, some, List, [], ◌∷◌}
use tantylla.Gateway.Clients.{client_addresses}
use tantylla.Startup.Args.{GatewayArgs}
use tantylla.Startup.Logger.{debug_config, init_logger_with_config_and_layer}
use tantylla.Startup.Start.{Start, running, ◌>>=◌, or_stop, or_panic, Process, test_layer}

pub data GatewayError : Type 0 where
  no_test_layer no_endpoint no_listener : GatewayError

pub data Handler : Type 0 where
  health search_handler : Handler

pub data Method : Type 0 where
  get post : Method

pub record Route : Type 0 where
  pub path : String
  pub method : Method
  pub handler : Handler

unfoldable pub create_router : List Route
create_router =
    record { path = "/api/health"; method = get; handler = health }
    ∷ record { path = "/api/v1/search"; method = post; handler = search_handler }
    ∷ []

pub record RunningGateway (Client Listener : Type 0) : Type 0 where
  pub clients : List Client
  pub listener : Listener
  pub routes : List Route

-- Tonic's lazy channels and Tokio's listener.
module _ (process : Process) {Client Listener : Type 0} (from_shared : String → Option Client)
    (bind : String → Option Listener) where
  open process use {tracing, number_text}

  -- The loop over the addresses, which the first one that is no endpoint ends.
  unfoldable pub make_clients : List String → Option (List Client)
  make_clients [] = some []
  make_clients (addr ∷ addrs) = elim (from_shared addr) [
    | none ↦ none
    | some client ↦ elim (make_clients addrs) [
      | none ↦ none
      | some clients ↦ some (client ∷ clients)
    ]
  ]

  unfoldable pub gateway_main : GatewayArgs → Start GatewayError (RunningGateway Client Listener)
  unfolding test_layer make_clients create_router
  gateway_main args = do
    layer ← test_layer process no_test_layer args.test_event_port
    guard ← or_panic (init_logger_with_config_and_layer tracing debug_config layer)
    clients ← or_stop no_endpoint (make_clients (client_addresses args.search_nodes))
    listener ←
        or_stop no_listener
          (bind (String.◌++◌ args.address (String.◌++◌ ":" (number_text args.port))))
    running (record { clients = clients; listener = listener; routes = create_router })
