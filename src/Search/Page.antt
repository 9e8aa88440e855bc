-- ===== src/Search/Page.antt =====
-- The hits of a search without grouping, and the whole search on a readable index.
use tantylla.Base.{
  ℕ, ◌<◌, ◌≡◌, refl, ap, ◌∙◌, some, List, [], ◌∷◌, map, take, drop, All-take, All-drop, map-take,
  map-drop, All, arith,
}
use tantylla.Indexer.{SearchHit}
use tantylla.Engine.Index.{Tantivy}
use tantylla.Search.Searcher.{Searcher, done}
use tantylla.Search.Hits.{hit_of, collect_top, hits_of_docs, plain_hits}
use tantylla.Search.Laws.{Ranks}

module _ {tantivy : Tantivy} (searcher : Searcher tantivy) where
  open tantivy use {Snapshot, Document}
  open searcher use {F32, Query, Address, doc}

  module _ (query : Query) (snapshot : Snapshot) (ranks : Ranks searcher query snapshot) where
    open ranks use {ranked, stored}

    -- All the hits of the query, best first.
    abbrev pub ranked_hit : F32 × Address → SearchHit F32
    ranked_hit x = hit_of searcher x.0 (stored x.1)

    abbrev pub ranked_hits : List (SearchHit F32)
    ranked_hits = map ranked_hit ranked

    abbrev pub Readable : F32 × Address → Type 0
    Readable x = doc x.1 snapshot ≡ some (stored x.1)

    pub hits_of_docs_lem :
        (docs : List (F32 × Address))
        → All Readable docs
        → hits_of_docs searcher snapshot docs ≡ done (map ranked_hit docs)
    unfolding hits_of_docs
    hits_of_docs_lem [] a = refl
    hits_of_docs_lem ((score, address) ∷ docs) a = rw (a.0, hits_of_docs_lem docs a.1) refl

    pub collect_top-ranked :
        (limit offset : ℕ)
        → 0 < limit
        → collect_top searcher limit offset query snapshot ≡ done (take limit (drop offset ranked))
    unfolding collect_top
    collect_top-ranked limit offset h = ground (arith, ranks.top_docs_ranked limit offset h)

    pub plain_hits-ranked :
        (limit offset : ℕ)
        → 0 < limit
        → plain_hits searcher limit offset query snapshot
          ≡ done (take limit (drop offset ranked_hits))
    unfolding plain_hits
    plain_hits-ranked limit offset h = rw (collect_top-ranked limit offset h) (
        hits_of_docs_lem (take limit (drop offset ranked)) (
          All-take Readable limit (drop offset ranked)
            (All-drop Readable offset ranked ranks.readable))
        ∙ ap done (
            map-take ranked_hit limit (drop offset ranked)
            ∙ ap (take limit) (map-drop ranked_hit offset ranked)))
