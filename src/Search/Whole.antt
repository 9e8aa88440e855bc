-- ===== src/Search/Whole.antt =====
-- The whole search, on a readable index, and where it panics.
use tantylla.Base.{◌<◌, ◌≡◌, refl, String, true, false, some, List, [], ◌∷◌, take, drop, length}
use tantylla.Base.Int.{ℤ}
use tantylla.Indexer.{FacetResult}
use tantylla.Engine.Index.{Tantivy}
use tantylla.Search.Searcher.{Searcher, SearchParams, done, panicked}
use tantylla.Search.Hits.{collect_top, grouped_hits}
use tantylla.Search.Facets.{facet_list, facets_of}
use tantylla.Search.Run.{query_of, hits_for, micros_between, search}
use tantylla.Search.Laws.{Ranks}
use tantylla.Search.Page.{ranked_hits, plain_hits-ranked}
use tantylla.Search.Counts.{counted, facets_of-counted}

module _ {tantivy : Tantivy} (searcher : Searcher tantivy) where
  open tantivy use {Snapshot}
  open searcher use {F32, Query, unexpired, count}

  -- The facets of a readable index.
  abbrev pub listed_facets :
      (query : Query) (snapshot : Snapshot)
      → Ranks searcher query snapshot
      → List String
      → List FacetResult
  listed_facets query snapshot ranks [] = []
  listed_facets query snapshot ranks (g ∷ fields) =
      facet_list searcher (counted searcher query snapshot ranks (g ∷ fields) ranks.all [])

  listed_facets_lem :
      (query : Query) (snapshot : Snapshot) (ranks : Ranks searcher query snapshot)
      (fields : List String)
      → facets_of searcher fields query snapshot ≡ done (listed_facets query snapshot ranks fields)
  unfolding facets_of
  listed_facets_lem query snapshot ranks [] = refl
  listed_facets_lem query snapshot ranks (g ∷ fields) =
      facets_of-counted searcher query snapshot ranks g fields

  -- Without grouping, on an index that can be read: the search of a query that parses answers with the
  -- page of the ranked hits, and their number.
  pub search-ranked :
      (start_micros end_micros : ℤ) (params : SearchParams F32) (snapshot : Snapshot)
      (query : Query) (ranks : Ranks searcher (unexpired start_micros query) snapshot)
      → query_of searcher params ≡ some query
      → params.group_by_partition ≡ false
      → 0 < params.limit
      → search searcher start_micros end_micros params snapshot
        ≡ done (record {
          hits = take params.limit (
              drop params.offset
                (ranked_hits searcher (unexpired start_micros query) snapshot ranks));
          total_hits = length ranks.ranked;
          duration_ms = micros_between end_micros start_micros;
          facets = listed_facets (unexpired start_micros query) snapshot ranks params.facet_fields;
        })
  unfolding search hits_for
  search-ranked start_micros end_micros params snapshot query ranks parses plain some_hit =
      let combined = unexpired start_micros query in
      rw
        (
          parses,
          ranks.count_ranked,
          plain,
          plain_hits-ranked searcher combined snapshot ranks params.limit params.offset some_hit,
          listed_facets_lem combined snapshot ranks params.facet_fields,
        )
        refl

  -- With grouping, a search panics when its query parses and matches no document.
  pub search-panicked :
      (start_micros end_micros : ℤ) (params : SearchParams F32) (snapshot : Snapshot)
      (query : Query)
      → query_of searcher params ≡ some query
      → params.group_by_partition ≡ true
      → count (unexpired start_micros query) snapshot ≡ some 0
      → search searcher start_micros end_micros params snapshot ≡ panicked
  unfolding search hits_for grouped_hits collect_top
  search-panicked start_micros end_micros params snapshot query parses grouped no_match =
      rw (parses, no_match, grouped) refl
