-- ===== src/Search/Laws.antt =====
-- What Tantivy documents of a searcher, as far as the search relies on it.
use tantylla.Base.{ℕ, ◌<◌, ◌≡◌, some, List, map, take, drop, length, All}
use mathlib.Core.List.{Perm}
use tantylla.Engine.Index.{Tantivy}
use tantylla.Search.Searcher.{Searcher}

module _ {tantivy : Tantivy} (searcher : Searcher tantivy) where
  open tantivy use {Snapshot, Document}
  open searcher use {F32, Query, Address, count, top_docs, doc_set, doc}

  -- For one query on one snapshot: the addresses of all documents that match, best first, and what is
  -- stored there.
  pub record Ranks (query : Query) (snapshot : Snapshot) : Type 0 where
    pub ranked : List (F32 × Address)
    pub stored : Address → Document
    pub readable : All (λ (x : F32 × Address). doc x.1 snapshot ≡ some (stored x.1)) ranked
    pub count_ranked : count query snapshot ≡ some (length ranked)
    pub top_docs_ranked :
        (limit offset : ℕ)
        → 0 < limit
        → top_docs limit offset query snapshot ≡ some (take limit (drop offset ranked))
    -- the collector of all documents gives the same ones, in any order
    pub all : List Address
    pub all_readable : All (λ a. doc a snapshot ≡ some (stored a)) all
    pub doc_set_all : doc_set query snapshot ≡ some all
    pub all_ranked : Perm all (map (λ (x : F32 × Address). x.1) ranked)
