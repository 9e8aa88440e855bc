-- ===== src/Search/Run.antt =====
-- `search`: the query, its hits and its facets. The clock is read twice.
use tantylla.Base.{ℕ, ◌+◌, ◌-◌, ◌%◌, ◌^◌, Option, none, some, List, if◌then◌else◌}
use tantylla.Base.Int.{ℤ, pos_part, neg_part}
use tantylla.Indexer.{SearchResponse, SearchHit}
use tantylla.Engine.Index.{Tantivy}
use tantylla.Search.Searcher.{Searcher, SearchParams, Ran, done, ◌>>=◌, or_failed}
use tantylla.Search.Expansion.{effective_query}
use tantylla.Search.Special.{try_build_json_special_query}
use tantylla.Search.Hits.{grouped_hits, plain_hits}
use tantylla.Search.Facets.{facets_of}

-- `(a - b) as u64`
unfoldable pub micros_between : ℤ → ℤ → ℕ
micros_between a b =
    let up = pos_part a + neg_part b in
    let down = pos_part b + neg_part a in (up + 2 ^ 64 - down % 2 ^ 64) % 2 ^ 64

module _ {tantivy : Tantivy} (searcher : Searcher tantivy) where
  open tantivy use {Snapshot}
  open searcher use {F32, Query, parse_query, unexpired, count}

  -- The query of a request, by the special form or by the parser.
  unfoldable pub query_of : SearchParams F32 → Option Query
  unfolding effective_query try_build_json_special_query
  query_of params =
      let effective = effective_query searcher params in
      elim (try_build_json_special_query searcher effective) [
        | some special ↦ some special
        | none ↦ parse_query effective
      ]

  unfoldable pub hits_for : SearchParams F32 → ℕ → Query → Snapshot → Ran (List (SearchHit F32))
  unfolding grouped_hits plain_hits
  hits_for params total_hits query snapshot =
      if params.group_by_partition
      then grouped_hits searcher total_hits params.limit params.offset query snapshot
      else plain_hits searcher params.limit params.offset query snapshot

  unfoldable pub search : ℤ → ℤ → SearchParams F32 → Snapshot → Ran (SearchResponse F32)
  unfolding query_of hits_for facets_of micros_between
  search start_micros end_micros params snapshot = do
    query ← or_failed (query_of params)
    let combined_query = unexpired start_micros query
    total_hits ← or_failed (count combined_query snapshot)
    hits ← hits_for params total_hits combined_query snapshot
    facets ← facets_of searcher params.facet_fields combined_query snapshot
    done (record {
      hits = hits;
      total_hits = total_hits;
      duration_ms = micros_between end_micros start_micros;
      facets = facets;
    })
