-- ===== src/Gateway/Clients.antt =====
-- The addresses of the clients that `main` of rust/gateway/src/main.rs makes, in order.
use Prim.Native.String
use tantylla.Base.{String, not, List, map, if◌then◌else◌}
use text.Mathlib.Text.{starts_with}
use tantylla.Base.Sort.{sort}
use tantylla.Base.TextOrder.{text_le}

unfoldable pub client_address : String → String
client_address addr = if not (starts_with addr "http") then String.◌++◌ "http://" addr else addr

-- `nodes.sort()`, and one client for each.
unfoldable pub client_addresses : List String → List String
unfolding client_address
client_addresses search_nodes = map client_address (sort text_le search_nodes)
