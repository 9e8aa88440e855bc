-- ===== src/Cluster/Query.antt =====
-- The gateway's query on nodes that run the search of the engine.
use tantylla.Base.{
  ◌+◌, ◌<◌, ◌≡◌, refl, ap, Ordering, String, false, Option, some, List, [], ◌∷◌, map, take, drop,
  length, length-map, concat, All, arith,
}
use tantylla.Base.Int.{ℤ}
use tantylla.Base.Sort
use tantylla.Base.Sort.{IsPreorder, IsSorted}
use tantylla.Indexer.{Status, SearchRequest, SearchResponse, SearchHit}
use tantylla.Gateway.Gather.{Answer, ok, err, u32_mod, score_before, scatter_gather}
use tantylla.Gateway.Paging.{Serves, ServesAll, hits-scatter_gather}
use tantylla.Engine.Index.{Tantivy}
use tantylla.Engine.State.{Engine}
use tantylla.Search.Searcher.{Searcher}
use tantylla.Search.Expansion.{effective_query}
use tantylla.Search.Run.{query_of, micros_between}
use tantylla.Search.Laws.{Ranks}
use tantylla.Search.Page.{ranked_hits}
use tantylla.Search.Whole.{listed_facets, search-ranked}
use tantylla.Node.Service
use tantylla.Node.Service.{Reply, response, refused, lost, params_of}

module _ {tantivy : Tantivy} (searcher : Searcher tantivy) (error_text : String)
    (no_reply : Status) where
  open searcher use {F32, Query, unexpired}

  -- What a gRPC client makes of a reply; `no_reply` is the status of a call that is lost.
  abbrev pub answer_of : Reply (SearchResponse F32) → Answer F32
  answer_of (response r) = ok r
  answer_of (refused status) = err status
  answer_of lost = err no_reply

  -- A node, as one query meets it: its engine, and the clock at the start and at the end.
  pub record NodeAt (query : Query) : Type 0 where
    pub engine : Engine tantivy
    pub start_micros : ℤ
    pub end_micros : ℤ
    pub ranks : Ranks searcher (unexpired start_micros query) engine.snapshot

  abbrev pub client_of : (query : Query) → NodeAt query → SearchRequest F32 → Answer F32
  client_of query node req =
      answer_of
        (Service.search error_text searcher node.start_micros node.end_micros req node.engine)

  abbrev pub hits_at : (query : Query) → NodeAt query → List (SearchHit F32)
  hits_at query node =
      ranked_hits searcher (unexpired node.start_micros query) node.engine.snapshot node.ranks

  service-search :
      (query : Query) (node : NodeAt query) (req : SearchRequest F32)
      → query_of searcher (params_of error_text searcher req) ≡ some query
      → req.group_by_partition ≡ false
      → 0 < req.limit
      → Service.search error_text searcher node.start_micros node.end_micros req node.engine
        ≡ response (record {
          hits = take req.limit (drop req.offset (hits_at query node));
          total_hits = length node.ranks.ranked;
          duration_ms = micros_between node.end_micros node.start_micros;
          facets =
              listed_facets searcher
                (unexpired node.start_micros query)
                node.engine.snapshot
                node.ranks
                req.facet_fields;
        })
  unfolding Service.search
  service-search query node req parses plain h = ground (
    arith,
    search-ranked searcher node.start_micros node.end_micros (params_of error_text searcher req)
        node.engine.snapshot query node.ranks parses plain h,
  )

  -- The service answers a request with a limit by the page of the engine's ranked hits.
  node-Serves :
      (query : Query) (node : NodeAt query) (req : SearchRequest F32)
      → query_of searcher (params_of error_text searcher req) ≡ some query
      → req.group_by_partition ≡ false
      → Serves req (client_of query node) (hits_at query node)
  unfolding query_of effective_query params_of
  node-Serves query node req parses plain limit offset h = (
    _,
    ap answer_of
        (service-search query node (record req { limit = limit; offset = offset }) parses plain h),
    refl,
  )

  nodes-ServesAll :
      (query : Query) (nodes : List (NodeAt query)) (req : SearchRequest F32)
      → query_of searcher (params_of error_text searcher req) ≡ some query
      → req.group_by_partition ≡ false
      → ServesAll req (map (client_of query) nodes) (map (hits_at query) nodes)
  nodes-ServesAll query [] req parses plain = tt
  nodes-ServesAll query (node ∷ nodes) req parses plain =
      (node-Serves query node req parses plain, nodes-ServesAll query nodes req parses plain)

  module _ (partial_cmp : F32 → F32 → Option Ordering) where
    -- The gateway on nodes that run the engine's search, for a request without grouping whose query parses:
    -- where each node's hits are ranked by the gateway's order of scores, a preorder, the response holds the
    -- page of the hits of all nodes, sorted. There is a node, some hit is asked for, limit and offset
    -- together fit in u32, and each node's index ranks the documents of the query and can be read.
    pub hits-cluster :
        (query : Query) (nodes : List (NodeAt query)) (req : SearchRequest F32)
        → query_of searcher (params_of error_text searcher req) ≡ some query
        → req.group_by_partition ≡ false
        → IsPreorder (score_before partial_cmp)
        → All (IsSorted (score_before partial_cmp)) (map (hits_at query) nodes)
        → 0 < length nodes
        → 0 < req.limit
        → req.limit + req.offset < u32_mod
        → (r : SearchResponse F32) × (scatter_gather partial_cmp (map (client_of query) nodes) req
            ≡ ok r)
          × (r.hits
              ≡ take req.limit (
                  drop req.offset
                    (Sort.sort (score_before partial_cmp) (concat (map (hits_at query) nodes)))))
    hits-cluster query nodes req parses plain pre sorted some_node some_hit fits =
        hits-scatter_gather partial_cmp (map (client_of query) nodes) (map (hits_at query) nodes)
          req pre (nodes-ServesAll query nodes req parses plain) sorted
          (omega (arith, length-map (client_of query) nodes)) some_hit fits
