-- ===== src/Engine/Newest.antt =====
-- The guard on writetimes in `process_batch`.
use tantylla.Base.{
  ℕ, suc, ◌+◌, ◌%◌, max, ◌≡◌, refl, ◌∙◌, String, Option, none, some, List, [], ◌∷◌, All, arith,
  ◌==◌, eq_iff, if◌then◌else◌, Bool-cases, inl, inr,
}
use tantylla.Base.Assoc.{lookup-insert}
use tantylla.Indexer.{IndexOperation, IndexBatchResponse, op_type_of, upsert}
use tantylla.Json.Deltas.{JsonOps}
use tantylla.Engine.Doc.{Doc}
use tantylla.Engine.Index.{Tantivy}
use tantylla.Engine.State.{Engine, find_cached_or_indexed}
use tantylla.Engine.Batch.{
  u32_mod, is_stale, upserted, add_to_index, put_doc, apply_upsert, apply_op, process_ops,
  process_batch,
}

module _ (json : JsonOps) (t : Tantivy) where
  abbrev find : Engine t → String → Option Doc
  find = find_cached_or_indexed t

  find-put_doc :
      (id j : String) (d : Doc) (e : Engine t)
      → find (put_doc json t id d e) j ≡ (if id == j then some d else find e j)
  unfolding put_doc find_cached_or_indexed
  find-put_doc id j d e = ground (arith, lookup-insert id j d e.uncommitted_docs)

  find-add_to_index :
      (o : Option t.Document) (e : Engine t) (j : String)
      → find (add_to_index json t o e).0 j ≡ find e j
  unfolding add_to_index find_cached_or_indexed
  find-add_to_index none e j = refl
  find-add_to_index (some d) e j = ground (arith)

  -- After an upsert, its id is found with the upserted document unless the upsert was not newer than
  -- the document there, and every other id is found as before.
  pub find-apply_upsert :
      (op : IndexOperation) (e : Engine t) (j : String)
      → find (apply_upsert json t op e).0 j ≡ (
          if is_stale (find e op.id) op.writetime
          then find e j
          else if op.id == j
          then some (upserted json (find e op.id) op e.current_generation)
          else find e j)
  unfolding apply_upsert
  find-apply_upsert op e j = elim (Bool-cases (is_stale (find e op.id) op.writetime)) [
    | inl q ↦ rw q
    | inr q ↦ rw q (find-add_to_index _ _ j ∙ find-put_doc op.id j _ e)
  ]

  -- 0 for no document, and one more than the writetime for a document.
  abbrev pub rank : Option Doc → ℕ
  rank none = 0
  rank (some d) = suc d.writetime

  abbrev pub newest : String → List IndexOperation → ℕ → ℕ
  newest j [] n = n
  newest j (op ∷ ops) n = newest j ops (if op.id == j then max n (suc op.writetime) else n)

  rank-apply_upsert :
      (op : IndexOperation) (e : Engine t) (j : String)
      → rank (find (apply_upsert json t op e).0 j)
        ≡ (if op.id == j then max (rank (find e j)) (suc op.writetime) else rank (find e j))
  unfolding is_stale upserted
  rank-apply_upsert op e j = ground (arith, find-apply_upsert op e j, eq_iff op.id j)

  -- The operations are upserts.
  abbrev pub IsUpsert : IndexOperation → Type 0
  IsUpsert op = op_type_of op.op_type ≡ upsert

  rank-process_ops :
      (j : String) (ops : List IndexOperation) (n s : ℕ) (e : Engine t) {r : IndexBatchResponse}
      → All IsUpsert ops
      → (process_ops json t ops n s e).1 ≡ some r
      → rank (find (process_ops json t ops n s e).0 j) ≡ newest j ops (rank (find e j))
  unfolding process_ops apply_op
  rank-process_ops j [] n s e u q = refl
  rank-process_ops j (op ∷ ops) n s e {r = r} u q =
      let e' = (apply_upsert json t op e).0 in
      ground (
        arith,
        u.0,
        rank-apply_upsert op e j,
        rank-process_ops j ops ((n + 1) % u32_mod) s e' {r = r} u.1,
        rank-process_ops j ops n ((s + 1) % u32_mod) e' {r = r} u.1,
      )

  -- For every id, the writetime that is known after an answered batch of upserts is the newest of the one
  -- known before and those of the batch's upserts of the id, in whatever order they stand.
  pub rank-process_batch :
      (j : String) (ops : List IndexOperation) (e : Engine t) {r : IndexBatchResponse}
      → All IsUpsert ops
      → (process_batch json t ops e).1 ≡ some r
      → rank (find (process_batch json t ops e).0 j) ≡ newest j ops (rank (find e j))
  unfolding process_batch
  rank-process_batch j ops e u q = rank-process_ops j ops 0 0 e u q
