-- ===== src/Engine/State.antt =====
-- The engine's state, and `find_cached_or_indexed`.
use tantylla.Base.{ℕ, String, Option, none, some, List, [], ◌∷◌}
use tantylla.Base.Assoc.{lookup}
use tantylla.Engine.Doc.{Doc, decode}
use tantylla.Engine.Index.{Tantivy, id_term}

module _ (tantivy : Tantivy) where
  open tantivy use {Index, Snapshot, Document, to_json, search}

  -- The writer's index, the reader's snapshot, the cache, and the generation of the next commit.
  pub record Engine : Type 0 where
    pub index : Index
    pub snapshot : Snapshot
    pub uncommitted_docs : List (String × Doc)
    pub current_generation : ℕ

  -- The first match of the index; one whose JSON cannot be read is no match.
  unfoldable pub indexed_of : String → List Document → Option Doc
  indexed_of id [] = none
  indexed_of id (d ∷ ds) = elim (to_json d) [ none ↦ none | some full ↦ some (decode id full) ]

  unfoldable pub find_indexed : String → Snapshot → Option Doc
  unfolding indexed_of
  find_indexed id snapshot = indexed_of id (search (id_term id) snapshot)

  -- The cache comes first.
  unfoldable pub cached_or : Option Doc → Option Doc → Option Doc
  cached_or (some d) indexed = some d
  cached_or none indexed = indexed

  unfoldable pub find_cached_or_indexed : Engine → String → Option Doc
  unfolding cached_or find_indexed
  find_cached_or_indexed e id =
      cached_or (lookup id e.uncommitted_docs) (find_indexed id e.snapshot)
