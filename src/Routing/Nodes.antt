-- ===== src/Routing/Nodes.antt =====
-- The node of a row, by the nodes that a router is given.
use mathlib.Core.List.{Perm}
use tantylla.Base.{
  ℕ, zero, suc, ◌+◌, ◌<◌, ◌≡◌, refl, ap, ◌∙◌, sym, String, true, ◌||◌, some, List, [], ◌∷◌, length,
  contains, ◌==◌, arith, eq_refl,
}
use tantylla.Base.Sort.{sort, insert, insert_all}
use tantylla.Base.TextOrder.{text_le, sort-Perm}
use tantylla.Routing.Forward.{Rows, node_of, get_target_node_id, target_node}
use tantylla.Routing.Setup.{enumerate, node_info_of, TableKeyInfo, new_router}

length-enumerate : (i : ℕ) (xs : List String) → length (enumerate i xs) ≡ length xs
unfolding enumerate
length-enumerate i [] = refl
length-enumerate i (x ∷ xs) = omega (arith, length-enumerate (i + 1) xs)

node_of-enumerate :
    (i k : ℕ) (xs : List String)
    → k < length xs
    → (node : String) × (node_of (i + k) (enumerate i xs) ≡ some node) × (contains node xs ≡ true)
unfolding node_of enumerate
node_of-enumerate i k [] h = absurd (omega arith)
node_of-enumerate i zero (x ∷ xs) h = (x, ground arith, ground (arith, eq_refl x))
node_of-enumerate i (suc k) (x ∷ xs) h =
    let (node, found, listed) = node_of-enumerate (i + 1) k xs (omega arith) in
    (node, ground (arith, found), ground (arith, listed))

contains-insert :
    (s x : String) (ys : List String) → contains s (insert text_le x ys) ≡ (x == s || contains s ys)
unfolding insert
contains-insert s x [] = refl
contains-insert s x (y ∷ ys) = ground (arith, contains-insert s x ys)

contains-insert_all :
    (s : String) (xs : List String) → contains s (insert_all text_le xs []) ≡ contains s xs
unfolding insert_all
contains-insert_all s [] = refl
contains-insert_all s (x ∷ xs) =
    ground (arith, contains-insert s x (insert_all text_le xs []), contains-insert_all s xs)

length-insert : (x : String) (ys : List String) → length (insert text_le x ys) ≡ suc (length ys)
unfolding insert
length-insert x [] = refl
length-insert x (y ∷ ys) = ground (arith, length-insert x ys)

length-insert_all : (xs : List String) → length (insert_all text_le xs []) ≡ length xs
unfolding insert_all
length-insert_all [] = refl
length-insert_all (x ∷ xs) =
    omega (arith, length-insert x (insert_all text_le xs []), length-insert_all xs)

node_of-node_info :
    (k : ℕ) (search_nodes : List String)
    → k < length search_nodes
    → (node : String) × (node_of k (node_info_of search_nodes) ≡ some node)
      × (contains node search_nodes ≡ true)
unfolding node_info_of sort
node_of-node_info k search_nodes h =
    let (node, found, listed) =
      node_of-enumerate 0 k (insert_all text_le search_nodes [])
        (omega (arith, length-insert_all search_nodes)) in
    (
      node,
      ap (λ i. node_of i (enumerate 0 (insert_all text_le search_nodes []))) plus_zero ∙ found,
      sym (contains-insert_all node search_nodes) ∙ listed,
    )
  where
    plus_zero : k ≡ 0 + k
    plus_zero = omega arith

length-node_info :
    (search_nodes : List String) → length (node_info_of search_nodes) ≡ length search_nodes
unfolding node_info_of sort
length-node_info search_nodes =
    omega (
      arith,
      length-insert_all search_nodes,
      length-enumerate 0 (insert_all text_le search_nodes []),
    )

module _ (rows : Rows) where
  get_target_node_id-lt :
      (row : rows.Row) (pk_names : List String) (n : ℕ)
      → 0 < n
      → (id : ℕ) × (get_target_node_id rows row pk_names n ≡ some id) × (id < n)
  unfolding get_target_node_id
  get_target_node_id-lt row pk_names zero h = absurd (omega arith)
  get_target_node_id-lt row pk_names (suc n) h = (_, refl, omega arith)

  target_node-listed :
      (search_nodes : List String) (key_info : TableKeyInfo) (row : rows.Row)
      → 0 < length search_nodes
      → (node : String) × (target_node rows (new_router (node_info_of search_nodes) key_info) row
          ≡ some node)
        × (contains node search_nodes ≡ true)
  unfolding target_node new_router
  target_node-listed search_nodes key_info row h =
      let (id, chosen, small) =
        get_target_node_id-lt row key_info.partition_key_columns
          (length (node_info_of search_nodes)) (omega (arith, length-node_info search_nodes)) in
      let (node, found, listed) =
        node_of-node_info id search_nodes (omega (arith, length-node_info search_nodes)) in
      (node, ground (arith, chosen, found), listed)

  -- A row has a node, one of those that the ingestor was started with, so that the lookup that would
  -- panic does not fail; and an ingestor that was given the same nodes in another order sends the row to
  -- the same one. There is at least one node.
  pub target_node-Perm :
      (search_nodes other_nodes : List String) (key_info : TableKeyInfo) (row : rows.Row)
      → 0 < length search_nodes
      → Perm search_nodes other_nodes
      → (node : String) × (target_node rows (new_router (node_info_of search_nodes) key_info) row
          ≡ some node)
        × (target_node rows (new_router (node_info_of other_nodes) key_info) row ≡ some node)
        × (contains node search_nodes ≡ true)
  unfolding node_info_of
  target_node-Perm search_nodes other_nodes key_info row h p =
      let (node, found, listed) = target_node-listed search_nodes key_info row h in
      (
        node,
        found,
        ap (λ nodes. target_node rows (new_router (enumerate 0 nodes) key_info) row)
              (sym (sort-Perm p))
            ∙ found,
        listed,
      )
