-- ===== src/Gateway/Collect.antt =====
-- What the fold over the answers of the nodes has gathered, and when a query is answered at all.
use mathlib.Core.List.{append-nil, append_assoc}
use tantylla.Base.{
  ℕ, suc, ◌+◌, ◌%◌, ◌≤◌, ◌<◌, ◌≡◌, refl, ap, sym, ◌∙◌, Ordering, Option, List, [], ◌∷◌, ◌++◌, map,
  length, concat, arith,
}
use tantylla.Indexer.{SearchRequest, SearchHit, Consistency, unspecified, any_node, all_nodes}
use tantylla.Gateway.Facets.{u64_mod}
use tantylla.Gateway.Gather.{
  Answer, ok, err, NodeFailure, Gathered, node_request, on_success, on_failure, collect, initial,
  consistency_error, finish, scatter_gather,
}

-- The level ALL wants every node, any other level one node.
abbrev pub Meets : Consistency → ℕ → ℕ → Type 0
Meets all_nodes answered total = answered ≡ total
Meets unspecified answered total = 1 ≤ answered
Meets any_node answered total = 1 ≤ answered

module _ {F32 : Type 0} where
  abbrev pub hits_of : Answer F32 → List (SearchHit F32)
  hits_of (ok r) = r.hits
  hits_of (err e) = []

  -- The number of nodes that answered, and the sum of their totals.
  abbrev pub successes : List (Answer F32) → ℕ
  successes [] = 0
  successes (ok r ∷ rs) = suc (successes rs)
  successes (err e ∷ rs) = successes rs

  abbrev pub sum_total_hits : List (Answer F32) → ℕ
  sum_total_hits [] = 0
  sum_total_hits (ok r ∷ rs) = r.total_hits + sum_total_hits rs
  sum_total_hits (err e ∷ rs) = sum_total_hits rs

  -- The nodes that failed, by their places in the list of clients.
  abbrev pub failures : ℕ → List (Answer F32) → List NodeFailure
  failures idx [] = []
  failures idx (ok r ∷ rs) = failures (idx + 1) rs
  failures idx (err e ∷ rs) = record { idx = idx; status = e } ∷ failures (idx + 1) rs

  pub successes-le : (rs : List (Answer F32)) → successes rs ≤ length rs
  successes-le [] = omega arith
  successes-le (ok r ∷ rs) = omega (arith, successes-le rs)
  successes-le (err e ∷ rs) = omega (arith, successes-le rs)

  pub all_hits-collect :
      (idx : ℕ) (rs : List (Answer F32)) (g : Gathered F32)
      → (collect idx rs g).all_hits ≡ g.all_hits ++ concat (map hits_of rs)
  unfolding collect
  all_hits-collect idx [] g = sym (append-nil _)
  all_hits-collect idx (ok r ∷ rs) g =
      all_hits-collect (idx + 1) rs (on_success r g) ∙ append_assoc g.all_hits r.hits _
  all_hits-collect idx (err e ∷ rs) g = all_hits-collect (idx + 1) rs (on_failure idx e g)

  pub successful_nodes-collect :
      (idx : ℕ) (rs : List (Answer F32)) (g : Gathered F32)
      → (collect idx rs g).successful_nodes ≡ g.successful_nodes + successes rs
  unfolding collect
  successful_nodes-collect idx [] g = omega arith
  successful_nodes-collect idx (ok r ∷ rs) g =
      omega (arith, successful_nodes-collect (idx + 1) rs (on_success r g))
  successful_nodes-collect idx (err e ∷ rs) g =
      omega (arith, successful_nodes-collect (idx + 1) rs (on_failure idx e g))

  pub total_hits-collect :
      (idx : ℕ) (rs : List (Answer F32)) (g : Gathered F32)
      → g.total_hits < u64_mod
      → (collect idx rs g).total_hits ≡ (g.total_hits + sum_total_hits rs) % u64_mod
  unfolding collect
  total_hits-collect idx [] g h = omega arith
  total_hits-collect idx (ok r ∷ rs) g h =
      omega (arith, total_hits-collect (idx + 1) rs (on_success r g) (omega arith))
  total_hits-collect idx (err e ∷ rs) g h = total_hits-collect (idx + 1) rs (on_failure idx e g) h

  pub failed_nodes-collect :
      (idx : ℕ) (rs : List (Answer F32)) (g : Gathered F32)
      → (collect idx rs g).failed_nodes ≡ g.failed_nodes ++ failures idx rs
  unfolding collect
  failed_nodes-collect idx [] g = sym (append-nil _)
  failed_nodes-collect idx (ok r ∷ rs) g = failed_nodes-collect (idx + 1) rs (on_success r g)
  failed_nodes-collect idx (err e ∷ rs) g =
      failed_nodes-collect (idx + 1) rs (on_failure idx e g) ∙ append_assoc g.failed_nodes _ _

  -- The answers of the nodes to a query.
  abbrev pub answers : List (SearchRequest F32 → Answer F32) → SearchRequest F32 → List (Answer F32)
  answers clients req = map (λ client. client (node_request req)) clients

  pub length-answers :
      (clients : List (SearchRequest F32 → Answer F32)) (req : SearchRequest F32)
      → length (answers clients req) ≡ length clients
  length-answers [] req = refl
  length-answers (c ∷ cs) req = ap suc (length-answers cs req)

  -- The fold from the start.
  unfoldable pub gathered : List (Answer F32) → Gathered F32
  gathered rs = collect 0 rs initial

  pub successful_nodes-gathered :
      (rs : List (Answer F32)) → (gathered rs).successful_nodes ≡ successes rs
  unfolding gathered initial
  successful_nodes-gathered rs = omega (arith, successful_nodes-collect 0 rs initial)

  pub total_hits-gathered :
      (rs : List (Answer F32)) → (gathered rs).total_hits ≡ sum_total_hits rs % u64_mod
  unfolding gathered initial
  total_hits-gathered rs = omega (arith, total_hits-collect 0 rs initial (omega arith))

  pub failed_nodes-gathered : (rs : List (Answer F32)) → (gathered rs).failed_nodes ≡ failures 0 rs
  unfolding gathered initial
  failed_nodes-gathered rs = failed_nodes-collect 0 rs initial

  pub all_hits-gathered :
      (rs : List (Answer F32)) → (gathered rs).all_hits ≡ concat (map hits_of rs)
  unfolding gathered initial
  all_hits-gathered rs = all_hits-collect 0 rs initial

  pub successes-le-length : (rs : List (Answer F32)) → (gathered rs).successful_nodes ≤ length rs
  successes-le-length rs = omega (arith, successful_nodes-gathered rs, successes-le rs)

  -- A query is the fold over the answers, the test of the level, and the reply.
  pub scatter_gather-gathered :
      (partial_cmp : F32 → F32 → Option Ordering) (clients : List (SearchRequest F32 → Answer F32))
      (req : SearchRequest F32)
      → scatter_gather partial_cmp clients req
        ≡ finish partial_cmp req (gathered (answers clients req)) (
            consistency_error req.consistency
              (length (answers clients req))
              (gathered (answers clients req)))
  unfolding scatter_gather gathered
  scatter_gather-gathered partial_cmp clients req = rw length-answers
