-- ===== src/Cluster/Addresses.antt =====
-- The nodes of the gateway and of the ingestor.
use tantylla.Base.{ℕ, ◌+◌, ◌≡◌, refl, String, List, [], ◌∷◌, map, arith}
use tantylla.Base.Sort.{sort}
use tantylla.Base.TextOrder.{text_le}
use tantylla.Batcher.Service.{address_of}
use tantylla.Gateway.Clients.{client_address, client_addresses}
use tantylla.Routing.Setup.{enumerate, node_info_of}

address-client_address : (node : String) → address_of node ≡ client_address node
unfolding address_of client_address
address-client_address node = ground arith

addresses-enumerate :
    (i : ℕ) (nodes : List String)
    → map (λ (n : ℕ × String). address_of n.1) (enumerate i nodes) ≡ map client_address nodes
unfolding enumerate
addresses-enumerate i [] = refl
addresses-enumerate i (node ∷ nodes) =
    rw (address-client_address node, addresses-enumerate (i + 1) nodes) refl

-- A gateway and an ingestor that are started with the same nodes have the same addresses at the same
-- numbers.
pub addresses-node_info :
    (search_nodes : List String)
    → map (λ (n : ℕ × String). address_of n.1) (node_info_of search_nodes)
      ≡ client_addresses search_nodes
unfolding node_info_of client_addresses
addresses-node_info search_nodes = addresses-enumerate 0 (sort text_le search_nodes)
