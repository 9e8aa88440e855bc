-- ===== src/Engine/Reorder.antt =====
-- A delete and an older upsert that reach the node in either order, as those of two flushes may.
use tantylla.Base.{
  Option-cases, inl, inr, ℕ, ◌<◌, ◌≡◌, refl, ap, ◌∙◌, subst, String, false, Option, none, some,
  arith, eq_refl,
}
use tantylla.Indexer.{IndexOperation}
use tantylla.Json.Deltas.{JsonOps}
use tantylla.Engine.Doc.{Doc}
use tantylla.Engine.Index.{Tantivy}
use tantylla.Engine.State.{Engine, find_indexed, find_cached_or_indexed}
use tantylla.Engine.Batch.{is_stale, upserted, add_to_index, put_doc, apply_upsert, apply_delete}
use tantylla.Engine.Newest.{find-apply_upsert}
use tantylla.Engine.Gaps.{find-apply_delete, not_stale, generation-apply_delete}

module _ (json : JsonOps) (t : Tantivy) where
  abbrev find : Engine t → String → Option Doc
  find = find_cached_or_indexed t

  -- The writer's index is no part of the cache or of the snapshot.
  add_to_index-rest :
      (x : Option t.Document) (e : Engine t)
      → ((add_to_index json t x e).0.uncommitted_docs ≡ e.uncommitted_docs)
        × ((add_to_index json t x e).0.snapshot ≡ e.snapshot)
  unfolding add_to_index
  add_to_index-rest none e = (refl, refl)
  add_to_index-rest (some v) e = elim (Option-cases (t.add_document v e.index)) [
    | inl q ↦ rw (q, add_to_index) (refl, refl)
    | inr (ix, q) ↦ rw (q, add_to_index) (refl, refl)
  ]

  later_not_stale : (o : Option Doc) (n m : ℕ) → is_stale o n ≡ false → n < m → is_stale o m ≡ false
  unfolding is_stale
  later_not_stale none n m h k = refl
  later_not_stale (some d) n m h k = ground arith

  snapshot-apply_upsert :
      (op : IndexOperation) (e : Engine t)
      → is_stale (find e op.id) op.writetime ≡ false
      → (apply_upsert json t op e).0.snapshot ≡ e.snapshot
  unfolding apply_upsert
  snapshot-apply_upsert op e fresh = rw fresh ((add_to_index-rest _ _).1 ∙ unfold put_doc in refl)

  module _ (del up : IndexOperation) (e : Engine t) (same : del.id ≡ up.id)
      (older : up.writetime < del.writetime) (fresh : is_stale (find e up.id) up.writetime ≡ false)
      (unindexed : find_indexed t up.id e.snapshot ≡ none) where
    -- The delete comes last and takes the document.
    upsert_first : find (apply_delete json t del (apply_upsert json t up e).0).0 up.id ≡ none
    upsert_first =
        let e' = (apply_upsert json t up e).0 in
        let found : find e' up.id ≡ some (upserted json (find e up.id) up e.current_generation) =
          find-apply_upsert json t up e up.id ∙ rw (fresh, eq_refl up.id) refl in
        let accepted : is_stale (find e' del.id) del.writetime ≡ false =
          ap (λ i. is_stale (find e' i) del.writetime) same
          ∙ ap (λ o. is_stale o del.writetime) found
          ∙ not_stale json t _ del.writetime (unfold upserted in older) in
        subst (λ i. find (apply_delete json t del e').0 i ≡ none) same
          (find-apply_delete json t del e' accepted
            ∙ ap (find_indexed t del.id) (snapshot-apply_upsert up e fresh)
            ∙ ap (λ i. find_indexed t i e.snapshot) same
            ∙ unindexed)

    -- The upsert comes last and is not refused.
    delete_first :
        find (apply_upsert json t up (apply_delete json t del e).0).0 up.id
        ≡ some (upserted json none up e.current_generation)
    delete_first =
        let e' = (apply_delete json t del e).0 in
        let accepted : is_stale (find e del.id) del.writetime ≡ false =
          ap (λ i. is_stale (find e i) del.writetime) same
          ∙ later_not_stale (find e up.id) up.writetime del.writetime fresh older in
        let gone : find e' up.id ≡ none =
          subst (λ i. find e' i ≡ find_indexed t i e.snapshot) same
            (find-apply_delete json t del e accepted)
          ∙ unindexed in
        find-apply_upsert json t up e' up.id
        ∙ rw (gone, eq_refl up.id, generation-apply_delete json t del e) (unfold is_stale in refl)

    -- An upsert and a newer delete of one id, which is not in the last snapshot and where nothing newer than
    -- the upsert is known: the upsert before the delete leaves nothing, and the delete before the upsert
    -- leaves the upserted document.
    pub delete_upsert_order :
        (find (apply_delete json t del (apply_upsert json t up e).0).0 up.id ≡ none)
        × (find (apply_upsert json t up (apply_delete json t del e).0).0 up.id
            ≡ some (upserted json none up e.current_generation))
    delete_upsert_order = (upsert_first, delete_first)
