-- ===== src/Engine/Committer.antt =====
-- One turn of the committer's loop and of the pruner's, and the reader's reload, which follows a commit
-- after a delay. `contended` says that the writer's lock was taken.
use tantylla.Base.{
  ℕ, ◌+◌, ◌-◌, ◌%◌, ◌^◌, String, Bool, true, false, Option, none, some, List, [], ◌∷◌, ◌++◌, map,
  keep, contains, ltb, ◌==◌, if◌then◌else◌,
}
use tantylla.Base.Int.{ℤ}
use tantylla.Base.Assoc.{retain}
use tantylla.Engine.Doc.{Doc, value_get, first_value, as_str}
use tantylla.Engine.Index.{Tantivy, partition_key_term}
use tantylla.Engine.State.{Engine}

abbrev pub u64_mod : ℕ
u64_mod = 2 ^ 64

module _ (tantivy : Tantivy) where
  open tantivy use {Index, Document, commit, delete_expired, reload, search, to_json}

  -- A commit that succeeds evicts the generations up to the one that it committed.
  unfoldable pub committed : Index → Engine tantivy → Engine tantivy
  committed index e = record e {
    index = index;
    uncommitted_docs = retain (λ doc. ltb e.current_generation doc.generation) e.uncommitted_docs;
    current_generation = (e.current_generation + 1) % u64_mod;
  }

  -- One that fails counts the generation down, wrapping at 0.
  unfoldable pub commit_failed : Engine tantivy → Engine tantivy
  commit_failed e = record e { current_generation = (e.current_generation + u64_mod - 1) % u64_mod }

  unfoldable pub commit_tick : Bool → Engine tantivy → Engine tantivy
  unfolding committed commit_failed
  commit_tick true e = e
  commit_tick false e = elim (commit e.index) [
    | none ↦ commit_failed e
    | some index ↦ committed index e
  ]

  -- The pruner commits too, without the cache and the generation.
  unfoldable pub prune_tick : Bool → ℤ → Engine tantivy → Engine tantivy
  prune_tick true now e = e
  prune_tick false now e = elim (delete_expired now e.index) [
    | none ↦ e
    | some index ↦ elim (commit index) [
      | none ↦ record e { index = index }
      | some index' ↦ record e { index = index' }
    ]
  ]

  unfoldable pub reload_tick : Engine tantivy → Engine tantivy
  reload_tick e = record e { snapshot = reload e.index }

  -- `retrieved.get_first(field_id)` as a text.
  unfoldable pub stored_id : Document → Option String
  stored_id d = elim (to_json d) [
    | none ↦ none
    | some full ↦ as_str (first_value (value_get "id" full))
  ]

  unfoldable pub cache_ids : String → List (String × Doc) → List String
  cache_ids pk m = map (λ e. e.0) (keep (λ e. e.1.partition_key == pk) m)

  -- The ids of the index that the cache has not given already.
  unfoldable pub index_ids : List String → List Document → List String
  unfolding stored_id
  index_ids seen [] = []
  index_ids seen (d ∷ ds) =
      let rest = index_ids seen ds in
      elim (stored_id d) [ none ↦ rest | some id ↦ if contains id seen then rest else id ∷ rest ]

  unfoldable pub list_document_ids_by_partition_key : Engine tantivy → String → List String
  unfolding cache_ids index_ids
  list_document_ids_by_partition_key e pk =
      let seen = cache_ids pk e.uncommitted_docs in
      seen ++ index_ids seen (search (partition_key_term pk) e.snapshot)
