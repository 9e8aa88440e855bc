-- ===== src/Engine/Gaps.antt =====
-- Deletions, and the time between a commit and the reload of the reader.
use tantylla.Base.{
  ℕ, ◌<◌, ◌≡◌, ap, ◌∙◌, subst, String, false, not, Option, some, [], arith, ◌==◌, eq_refl,
}
use tantylla.Base.Assoc.{lookup, lookup-remove}
use tantylla.Base.AssocKeys.{keep_if, lookup-retain}
use tantylla.Indexer.{IndexOperation}
use tantylla.Json.Deltas.{JsonOps}
use tantylla.Engine.Doc.{Doc}
use tantylla.Engine.Index.{Tantivy}
use tantylla.Engine.State.{Engine, find_indexed, find_cached_or_indexed}
use tantylla.Engine.Cache.{IsCoherent, commit_tick-empty}
use tantylla.Engine.Newest.{find-apply_upsert}
use tantylla.Engine.Committer.{commit_tick, committed}
use tantylla.Engine.Batch.{
  is_stale, partition_key_of, upserted, apply_upsert, apply_delete, apply_partition_delete,
  drop_doc, drop_partition,
}

module _ (json : JsonOps) (t : Tantivy) where
  abbrev find : Engine t → String → Option Doc
  find = find_cached_or_indexed t

  find-drop_doc :
      (id : String) (e : Engine t) → find (drop_doc json t id e) id ≡ find_indexed t id e.snapshot
  unfolding drop_doc find_cached_or_indexed
  find-drop_doc id e = rw (lookup-remove id id e.uncommitted_docs, eq_refl id)

  pub generation-apply_delete :
      (op : IndexOperation) (e : Engine t)
      → (apply_delete json t op e).0.current_generation ≡ e.current_generation
  unfolding apply_delete drop_doc
  generation-apply_delete op e = ground arith

  -- After an accepted delete the document of the last reload is found again.
  pub find-apply_delete :
      (op : IndexOperation) (e : Engine t)
      → is_stale (find e op.id) op.writetime ≡ false
      → find (apply_delete json t op e).0 op.id ≡ find_indexed t op.id e.snapshot
  unfolding apply_delete
  find-apply_delete op e fresh = rw fresh (find-drop_doc op.id e)

  pub not_stale : (d : Doc) (n : ℕ) → d.writetime < n → is_stale (some d) n ≡ false
  unfolding is_stale
  not_stale d n h = ground arith

  -- When an accepted delete is followed by an upsert that is newer than the document of the last reload,
  -- the upsert merges its patch into that deleted document, even where it is older than the delete.
  pub upsert_after_delete :
      (del up : IndexOperation) (e : Engine t) (old : Doc)
      → del.id ≡ up.id
      → is_stale (find e del.id) del.writetime ≡ false
      → find_indexed t up.id e.snapshot ≡ some old
      → old.writetime < up.writetime
      → find (apply_upsert json t up (apply_delete json t del e).0).0 up.id
        ≡ some (upserted json (some old) up e.current_generation)
  upsert_after_delete del up e old same fresh indexed newer =
      let e' = (apply_delete json t del e).0 in
      let found : find e' up.id ≡ some old =
        subst (λ i. find e' i ≡ find_indexed t i e.snapshot) same (find-apply_delete del e fresh)
        ∙ indexed in
      let accepted : is_stale (find e' up.id) up.writetime ≡ false =
        ap (λ o. is_stale o up.writetime) found ∙ not_stale old up.writetime newer in
      find-apply_upsert json t up e' up.id
      ∙ rw (accepted, eq_refl up.id, found, generation-apply_delete del e)

  find_empty :
      (e : Engine t) (id : String)
      → e.uncommitted_docs ≡ []
      → find e id ≡ find_indexed t id e.snapshot
  unfolding find_cached_or_indexed lookup
  find_empty e id h = rw h

  snapshot-commit_tick :
      (e : Engine t) (ix : t.Index)
      → t.commit e.index ≡ some ix
      → (commit_tick t false e).snapshot ≡ e.snapshot
  unfolding commit_tick committed
  snapshot-commit_tick e ix commits = rw (commits, commit_tick)

  -- From a coherent cache, after a commit that succeeds every id is looked up in the snapshot of before
  -- the commit alone.
  pub find-commit_tick :
      (e : Engine t) (ix : t.Index) (id : String)
      → IsCoherent e
      → t.commit e.index ≡ some ix
      → find (commit_tick t false e) id ≡ find_indexed t id e.snapshot
  find-commit_tick e ix id c commits =
      find_empty (commit_tick t false e) id (commit_tick-empty json t e ix c commits)
      ∙ ap (find_indexed t id) (snapshot-commit_tick e ix commits)

  -- From a coherent cache, a partition delete takes every cached document of its partition, whatever its
  -- writetime, and no other.
  pub lookup-apply_partition_delete :
      (op : IndexOperation) (e : Engine t) (id : String)
      → IsCoherent e
      → lookup id (apply_partition_delete json t op e).0.uncommitted_docs
        ≡ keep_if (λ d. not (d.partition_key == partition_key_of op)) (lookup id e.uncommitted_docs)
  unfolding apply_partition_delete drop_partition
  lookup-apply_partition_delete op e id c = lookup-retain id _ e.uncommitted_docs c.keys
