-- ===== src/Engine/Durable.antt =====
-- A batch, the commit after it and the reload of the reader, together.
use tantylla.Base.{◌≡◌, ap, ◌∙◌, String, false, some, List, [], ◌∷◌, keep}
use tantylla.Base.Assoc.{lookup}
use tantylla.Indexer.{IndexOperation, IndexBatchResponse}
use tantylla.Json.Deltas.{JsonOps}
use tantylla.Engine.Doc.{Doc, full_doc_wrapper}
use tantylla.Engine.Index.{Tantivy, id_term}
use tantylla.Engine.State.{Engine, indexed_of, find_indexed, find_cached_or_indexed}
use tantylla.Engine.Stored.{Documented, IsKeptBody, InI64, decode-stored_form}
use tantylla.Engine.Cache.{
  IsCoherent, empty-IsCoherent, process_batch-IsCoherent, commit_tick-empty,
}
use tantylla.Engine.Committer.{commit_tick, committed, reload_tick}
use tantylla.Engine.Batch.{process_batch}
use tantylla.Engine.Synced.{option_list, Synced, InSync}
use tantylla.Engine.Sync.{process_batch-InSync, empty-InSync}

module _ (json : JsonOps) (t : Tantivy) (doc : Documented t) where
  open doc use {pending, matches}

  index-commit_tick :
      (e : Engine t) (ix : t.Index)
      → t.commit e.index ≡ some ix
      → (commit_tick t false e).index ≡ ix
  unfolding commit_tick committed
  index-commit_tick e ix commits = rw (commits, commit_tick)

  find_empty :
      (e : Engine t) (id : String)
      → e.uncommitted_docs ≡ []
      → find_cached_or_indexed t (reload_tick t e) id ≡ find_indexed t id (t.reload e.index)
  unfolding find_cached_or_indexed reload_tick lookup
  find_empty e id h = rw h

  search_stored :
      (e : Engine t) (ix : t.Index) (id : String) (d : Doc) (v : t.Document)
      → Synced t doc e.index id d
      → t.commit e.index ≡ some ix
      → t.parse_json (full_doc_wrapper d) ≡ some v
      → t.search (id_term id) (t.reload ix) ≡ v ∷ []
  search_stored e ix id d v y commits parsed =
      doc.search-reload (id_term id) ix
      ∙ ap (keep (matches (id_term id))) (doc.visible-commit e.index ix commits)
      ∙ y.stored
      ∙ ap option_list parsed

  find_indexed_stored :
      (ix : t.Index) (id : String) (d : Doc) (v : t.Document)
      → d.id ≡ id
      → InI64 d.expires_at
      → IsKeptBody doc.is_date d.doc
      → t.search (id_term id) (t.reload ix) ≡ v ∷ []
      → t.parse_json (full_doc_wrapper d) ≡ some v
      → find_indexed t id (t.reload ix) ≡ some (record d { generation = 0 })
  unfolding find_indexed
  find_indexed_stored ix id d v same range kept found parsed =
      rw (found, doc.to_json-parse_json d v kept parsed, ← same, indexed_of)
        (ap some (decode-stored_form d range))

  find_committed :
      (e : Engine t) (ix : t.Index) (id : String) (d : Doc) (v : t.Document)
      → IsCoherent e
      → InSync t doc e
      → t.commit e.index ≡ some ix
      → lookup id e.uncommitted_docs ≡ some d
      → IsKeptBody doc.is_date d.doc
      → t.parse_json (full_doc_wrapper d) ≡ some v
      → find_cached_or_indexed t (reload_tick t (commit_tick t false e)) id
        ≡ some (record d { generation = 0 })
  find_committed e ix id d v c s commits cached kept parsed =
      let y = s.synced id d cached in
      find_empty (commit_tick t false e) id (commit_tick-empty json t e ix c commits)
      ∙ ap (λ i. find_indexed t id (t.reload i)) (index-commit_tick e ix commits)
      ∙ find_indexed_stored ix id d v y.same_id y.in_range kept
          (search_stored e ix id d v y commits parsed) parsed

  -- From an engine with nothing uncommitted: once a batch is answered, committed and the reader has
  -- reloaded, a document that the batch left in the cache, and that the index can parse, is found in the
  -- index as it was cached, but for the generation. Its body is an object, in which no text is read as a
  -- date.
  pub find-process_batch_committed :
      (ops : List IndexOperation) (e : Engine t) (ix : t.Index) (id : String) (d : Doc)
      (v : t.Document) {r : IndexBatchResponse}
      → e.uncommitted_docs ≡ []
      → (process_batch json t ops e).1 ≡ some r
      → t.commit (process_batch json t ops e).0.index ≡ some ix
      → lookup id (process_batch json t ops e).0.uncommitted_docs ≡ some d
      → IsKeptBody doc.is_date d.doc
      → t.parse_json (full_doc_wrapper d) ≡ some v
      → find_cached_or_indexed t
          (reload_tick t (commit_tick t false (process_batch json t ops e).0))
          id
        ≡ some (record d { generation = 0 })
  find-process_batch_committed ops e ix id d v none_cached answered commits cached kept parsed =
      find_committed (process_batch json t ops e).0 ix id d v
        (process_batch-IsCoherent json t ops e (empty-IsCoherent json t e none_cached))
        (process_batch-InSync json t doc ops e (empty-InSync json t doc e none_cached) answered)
        commits cached kept parsed
