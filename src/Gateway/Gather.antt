-- ===== src/Gateway/Gather.antt =====
-- `scatter_gather`: the requests to the nodes, the fold over their answers, the test of the
-- consistency level, and the page that is returned.
use tantylla.Base.{
  ℕ, ◌+◌, ◌%◌, ◌^◌, max, Ordering, Bool, true, false, Option, none, some, List, [], ◌∷◌, ◌++◌, map,
  length, take, drop, ltb, leb, eqb, if◌then◌else◌,
}
use tantylla.Base.Sort
use tantylla.Indexer.{Status, SearchRequest, SearchResponse, SearchHit, Consistency, all_nodes}
use tantylla.Gateway.Facets.{FacetsAgg, u64_mod, add_facets, facet_results}

pub data Answer (F32 : Type 0) : Type 0 where
  ok : SearchResponse F32 → Answer F32
  err : Status → Answer F32

-- "Node {idx} search failed: {code} ({message})".
pub record NodeFailure : Type 0 where
  pub idx : ℕ
  pub status : Status

-- "Consistency ALL failed: {successful}/{total} nodes succeeded" and "Consistency ANY failed: all
-- {total} nodes failed.".
pub data FailMessage : Type 0 where
  all_failed : ℕ → ℕ → FailMessage
  any_failed : ℕ → FailMessage

pub record ScatterFail : Type 0 where
  pub message : FailMessage
  pub errors : List NodeFailure

pub data Outcome (F32 : Type 0) : Type 0 where
  ok : SearchResponse F32 → Outcome F32
  err : ScatterFail → Outcome F32

abbrev pub u32_mod : ℕ
u32_mod = 2 ^ 32

-- The variables of the loop over the answers.
pub record Gathered (F32 : Type 0) : Type 0 where
  pub all_hits : List (SearchHit F32)
  pub total_hits : ℕ
  pub max_duration : ℕ
  pub failed_nodes : List NodeFailure
  pub successful_nodes : ℕ
  pub facets_agg : FacetsAgg

-- The page of the sorted hits, with the test of the offset as it is written.
unfoldable pub paged {ℓ} : {A : Type ℓ} → ℕ → ℕ → List A → List A
paged offset limit hits = if leb (length hits) offset then [] else take limit (drop offset hits)

module _ {F32 : Type 0} where
  -- The request that each node is sent. The u32 addition wraps, as in a release build.
  unfoldable pub node_request : SearchRequest F32 → SearchRequest F32
  node_request req = record req { limit = (req.limit + req.offset) % u32_mod; offset = 0 }

  unfoldable pub on_success : SearchResponse F32 → Gathered F32 → Gathered F32
  on_success inner g = record g {
    all_hits = g.all_hits ++ inner.hits;
    total_hits = (g.total_hits + inner.total_hits) % u64_mod;
    max_duration = max g.max_duration inner.duration_ms;
    successful_nodes = g.successful_nodes + 1;
    facets_agg = add_facets inner.facets g.facets_agg;
  }

  unfoldable pub on_failure : ℕ → Status → Gathered F32 → Gathered F32
  on_failure idx e g = record g {
    failed_nodes = g.failed_nodes ++ record { idx = idx; status = e } ∷ [];
  }

  -- `for (idx, res) in results.into_iter().enumerate()`.
  unfoldable pub collect : ℕ → List (Answer F32) → Gathered F32 → Gathered F32
  unfolding on_success on_failure
  collect idx [] g = g
  collect idx (ok inner ∷ results) g = collect (idx + 1) results (on_success inner g)
  collect idx (err e ∷ results) g = collect (idx + 1) results (on_failure idx e g)

  unfoldable pub initial : Gathered F32
  initial = record {
    all_hits = [];
    total_hits = 0;
    max_duration = 0;
    failed_nodes = [];
    successful_nodes = 0;
    facets_agg = [];
  }

  -- The test of the consistency level: `some` is the error that is returned.
  unfoldable pub consistency_error : Consistency → ℕ → Gathered F32 → Option ScatterFail
  consistency_error all_nodes total g =
      if ltb g.successful_nodes total
      then some (record { message = all_failed g.successful_nodes total; errors = g.failed_nodes })
      else none
  consistency_error _ total g =
      if eqb g.successful_nodes 0
      then some (record { message = any_failed total; errors = g.failed_nodes })
      else none

module _ {F32 : Type 0} (partial_cmp : F32 → F32 → Option Ordering) where
  -- `b.score.partial_cmp(&a.score).unwrap_or(Equal)` is not `Greater`.
  unfoldable pub score_before : SearchHit F32 → SearchHit F32 → Bool
  score_before a b = elim (partial_cmp b.score a.score) [
    | none ↦ true
    | some o ↦ elim o [ Ordering.gt ↦ false | _ ↦ true ]
  ]

  unfoldable pub respond : SearchRequest F32 → Gathered F32 → SearchResponse F32
  unfolding paged facet_results
  respond req g = record {
    hits = paged req.offset req.limit (Sort.sort score_before g.all_hits);
    total_hits = g.total_hits;
    duration_ms = g.max_duration;
    facets = facet_results g.facets_agg;
  }

  unfoldable pub finish : SearchRequest F32 → Gathered F32 → Option ScatterFail → Outcome F32
  finish req g none = ok (respond req g)
  finish req g (some e) = err e

  unfoldable pub scatter_gather :
      List (SearchRequest F32 → Answer F32) → SearchRequest F32 → Outcome F32
  unfolding node_request collect initial consistency_error finish
  scatter_gather clients req =
      let results = map (λ client. client (node_request req)) clients in
      let g = collect 0 results initial in
      finish req g (consistency_error req.consistency (length clients) g)

-- The status that `search_handler` replies with: OK or INTERNAL_SERVER_ERROR.
unfoldable pub http_status : {F32 : Type 0} → Outcome F32 → ℕ
http_status (ok r) = 200
http_status (err e) = 500
