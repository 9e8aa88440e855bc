-- ===== src/Gateway/Tests.antt =====
-- The gateway on two nodes, with numbers for scores.
use Prim.Native.Nat.{compare}
use tantylla.Base.{
  ℕ, ◌≡◌, refl, Ordering, String, false, Option, some, List, [], ◌∷◌, ◌++◌, take, drop, length,
  arith,
}
use tantylla.Base.Sort
use tantylla.Base.Sort.{IsPreorder, IsSorted}
use tantylla.Base.Assoc.{update}
use tantylla.Indexer.{SearchRequest, SearchResponse, SearchHit, FacetResult, all_nodes}
use tantylla.Gateway.Facets.{add_facets}
use tantylla.Gateway.Gather.{Answer, ok, err, node_request, respond, score_before, scatter_gather}
use tantylla.Gateway.Collect.{answers}
use tantylla.Gateway.Consistency.{Described, scatter_gather-Described}
use tantylla.Gateway.Paging.{ServesAll, hits-scatter_gather}
use tantylla.Gateway.FacetCounts.{facet_count, sum_facet_count, facet_count-scatter_gather}

abbrev cmp : ℕ → ℕ → Option Ordering
cmp a b = some (compare a b)

cmp-IsPreorder : IsPreorder (score_before cmp)
unfolding score_before
cmp-IsPreorder = record { le_total = λ x y h. ground arith; le_trans = λ x y z h k. ground arith }

abbrev hit : String → ℕ → SearchHit ℕ
hit i score = record { id = i; score = score; payload_json = "{}"; partition_key = i }

abbrev counted : String → ℕ → List FacetResult
counted v n = record { field = "brand"; buckets = record { value = v; count = n } ∷ [] } ∷ []

-- A node that serves a list of ranked hits.
abbrev node : List (SearchHit ℕ) → List FacetResult → SearchRequest ℕ → Answer ℕ
node ranked facets req = ok (record {
  hits = take req.limit (drop req.offset ranked);
  total_hits = length ranked;
  duration_ms = 1;
  facets = facets;
})

abbrev down : SearchRequest ℕ → Answer ℕ
down req = err (record { code = "Unavailable"; message = "" })

abbrev left : List (SearchHit ℕ)
left = hit "a" 9 ∷ hit "b" 5 ∷ hit "c" 1 ∷ []

abbrev right : List (SearchHit ℕ)
right = hit "d" 7 ∷ hit "e" 5 ∷ []

abbrev page : SearchRequest ℕ
page = record {
  query = "x";
  limit = 2;
  offset = 1;
  consistency = all_nodes;
  default_fields = [];
  facet_fields = "brand" ∷ [];
  boost_fields = [];
  group_by_partition = false;
}

abbrev nodes : List (SearchRequest ℕ → Answer ℕ)
nodes = node left (counted "acme" 2) ∷ node right (counted "acme" 3) ∷ []

nodes-ServesAll : ServesAll page nodes (left ∷ right ∷ [])
nodes-ServesAll = ((λ limit offset h. (_, refl, refl)), ((λ limit offset h. (_, refl, refl)), tt))

hits-scatter_gather_example :
    (r : SearchResponse ℕ) × (scatter_gather cmp nodes page ≡ ok r)
    × (r.hits ≡ take 2 (drop 1 (Sort.sort (score_before cmp) (left ++ right))))
unfolding score_before
hits-scatter_gather_example =
    hits-scatter_gather cmp nodes (left ∷ right ∷ []) page cmp-IsPreorder nodes-ServesAll
      (((refl, (refl, tt)), ((refl, tt), (tt, tt))), (((refl, tt), (tt, tt)), tt)) (omega arith)
      (omega arith) (omega arith)

-- The page, computed: the two hits after the best one.
page_run :
    (r : SearchResponse ℕ) × (scatter_gather cmp nodes page ≡ ok r)
    × (r.hits ≡ hit "d" 7 ∷ hit "b" 5 ∷ [])
unfolding scatter_gather respond node_request score_before Sort.sort
page_run = (_, refl, refl)

abbrev facet_response : SearchResponse ℕ
facet_response = record {
  hits = hit "d" 7 ∷ hit "b" 5 ∷ [];
  total_hits = 5;
  duration_ms = 1;
  facets = counted "acme" 5;
}

facets_run : scatter_gather cmp nodes page ≡ ok facet_response
unfolding scatter_gather respond node_request score_before Sort.sort add_facets update
facets_run = refl

facet_count-scatter_gather_example :
    facet_count "brand" "acme" facet_response.facets
    ≡ sum_facet_count "brand" "acme" (answers nodes page)
facet_count-scatter_gather_example =
    facet_count-scatter_gather cmp "brand" "acme" nodes page facets_run (omega arith)

scatter_gather-Described_example :
    Described cmp page (answers (down ∷ nodes) page) (scatter_gather cmp (down ∷ nodes) page)
scatter_gather-Described_example = scatter_gather-Described cmp (down ∷ nodes) page
