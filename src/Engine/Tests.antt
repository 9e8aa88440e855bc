-- ===== src/Engine/Tests.antt =====
-- Examples: an index in memory, and an engine on it.
use tantylla.Base.{
  ◌≡◌, refl, ap, String, Bool, true, false, not, Option, none, some, List, [], ◌∷◌, ◌++◌, keep,
  ◌==◌, arith,
}
use tantylla.Base.Int.{pos}
use tantylla.Indexer.{IndexOperation, IndexBatchResponse, op_type_of}
use tantylla.Json.Value.{Value, object, number, unsigned, end, field, get, entry}
use tantylla.Json.Tests.{small_json}
use tantylla.Base.Assoc.{lookup, insert, update}
use tantylla.Json.Merge.{merge_json, merge_fields}
use tantylla.Engine.Doc.{Doc, i64_max, full_doc_wrapper, value_get, as_str, decode}
use tantylla.Engine.Index.{Tantivy, Term, id_term, partition_key_term}
use tantylla.Engine.State.{Engine, indexed_of, find_indexed, find_cached_or_indexed}
use tantylla.Engine.Batch.{
  is_stale, upserted, apply_upsert, apply_delete, process_ops, apply_op, add_to_index, put_doc,
  process_batch,
}
use tantylla.Engine.Committer.{commit_tick, reload_tick}
use tantylla.Engine.Newest.{rank, rank-process_batch}
use tantylla.Engine.Cache.{IsCoherent, Step, Reach, Reach-IsCoherent}
use tantylla.Engine.Durable.{find-process_batch_committed}
use tantylla.Engine.Gaps.{upsert_after_delete, find-commit_tick}
use tantylla.Engine.Stored.{Documented, stored_form}

abbrev matches_text : String → Option String → Bool
matches_text s none = false
matches_text s (some t) = t == s

abbrev memory_matches : Term → Value → Bool
memory_matches (id_term s) v = matches_text s (as_str (value_get "id" v))
memory_matches (partition_key_term s) v = matches_text s (as_str (value_get "partition_key" v))

-- The pending documents and the committed ones.
abbrev pub memory : Tantivy
memory = record {
  Index = List Value × List Value;
  Snapshot = List Value;
  Document = Value;
  parse_json = λ v. some v;
  to_json = λ v. some (stored_form v);
  delete_term = λ x (pending, visible). (keep (λ v. not (memory_matches x v)) pending, visible);
  add_document = λ v (pending, visible). some (pending ++ v ∷ [], visible);
  commit = λ (pending, visible). some (pending, pending);
  delete_expired = λ now ix. some ix;
  reload = λ ix. ix.1;
  search = λ x visible. keep (memory_matches x) visible;
}

pub memory_added :
    (d : Value) (ix ix' : memory.Index)
    → memory.add_document d ix ≡ some ix'
    → ix'.0 ≡ ix.0 ++ d ∷ []
memory_added d ix ix' e = ground arith

pub memory_committed : (ix ix' : memory.Index) → memory.commit ix ≡ some ix' → ix'.1 ≡ ix.0
memory_committed ix ix' e = ground arith

pub memory_matches_id :
    (doc : Doc) (d : Value) (id : String)
    → memory.parse_json (full_doc_wrapper doc) ≡ some d
    → memory_matches (id_term id) d ≡ (doc.id == id)
unfolding full_doc_wrapper value_get as_str get
memory_matches_id doc d id e = ground arith

pub memory_matches_partition_key :
    (doc : Doc) (d : Value) (pk : String)
    → memory.parse_json (full_doc_wrapper doc) ≡ some d
    → memory_matches (partition_key_term pk) d ≡ (doc.partition_key == pk)
unfolding full_doc_wrapper value_get as_str get
memory_matches_partition_key doc d pk e = ground arith

pub memory_stored :
    (doc : Doc) (d : Value)
    → memory.parse_json (full_doc_wrapper doc) ≡ some d
    → memory.to_json d ≡ some (stored_form (full_doc_wrapper doc))
memory_stored doc d e = ground arith

unfoldable pub memory-Documented : Documented memory
memory-Documented = record {
  pending = λ ix. ix.0;
  visible = λ ix. ix.1;
  matches = memory_matches;
  pending-delete_term = λ x ix. refl;
  pending-add_document = memory_added;
  visible-commit = memory_committed;
  search-reload = λ x ix. refl;
  matches_id = memory_matches_id;
  matches_partition_key = memory_matches_partition_key;
  is_date = λ s. false;
  to_json-parse_json = λ doc d kept h. memory_stored doc d h;
}

abbrev pub no_docs : Engine memory
no_docs = record { index = ([], []); snapshot = []; uncommitted_docs = []; current_generation = 0 }

abbrev pub write : IndexOperation
write = record {
  id = "u1";
  op_type = 1;
  writetime = 5;
  cdc_ttl = none;
  payload_json = "{x}";
  collection_deltas = [];
  partition_key = some "p";
}

abbrev older_write : IndexOperation
older_write = record write { writetime = 4 }

abbrev pub erase : IndexOperation
erase = record write { op_type = 2; writetime = 7 }

abbrev pub written_doc : Doc
written_doc = record {
  id = "u1";
  partition_key = "p";
  doc = object (field "x" (number (unsigned 1)) end);
  expires_at = pos i64_max;
  writetime = 5;
  generation = 0;
}

abbrev pub written : Engine memory
written = record {
  index = (full_doc_wrapper written_doc ∷ [], []);
  snapshot = [];
  uncommitted_docs = ("u1", written_doc) ∷ [];
  current_generation = 0;
}

write_lem :
    process_batch small_json memory (write ∷ older_write ∷ []) no_docs
    ≡ (written, some (record { processed_count = 1; skipped_count = 1; success = true }))
unfolding process_batch process_ops op_type_of apply_op apply_upsert find_cached_or_indexed lookup
    is_stale upserted add_to_index put_doc full_doc_wrapper merge_json merge_fields entry get insert
    update
write_lem = refl

abbrev pub both : List IndexOperation
both = write ∷ older_write ∷ []

abbrev pub both_answer : IndexBatchResponse
both_answer = record { processed_count = 1; skipped_count = 1; success = true }

engine_lem : (process_batch small_json memory both no_docs).0 ≡ written
engine_lem = ap (λ p. p.0) write_lem

pub answer_lem : (process_batch small_json memory both no_docs).1 ≡ some both_answer
answer_lem = ap (λ p. p.1) write_lem

find-process_batch_committed_example :
    find_cached_or_indexed memory
      (reload_tick memory
        (commit_tick memory false (process_batch small_json memory both no_docs).0))
      "u1"
    ≡ some written_doc
unfolding lookup
find-process_batch_committed_example =
    find-process_batch_committed small_json memory memory-Documented both no_docs
      (full_doc_wrapper written_doc ∷ [], full_doc_wrapper written_doc ∷ []) "u1" written_doc
      (full_doc_wrapper written_doc) refl answer_lem (ap (λ e. memory.commit e.index) engine_lem)
      (ap (λ e. lookup "u1" e.uncommitted_docs) engine_lem) (tt, tt) refl

rank-process_batch_example :
    rank small_json memory
      (find_cached_or_indexed memory (process_batch small_json memory both no_docs).0 "u1")
    ≡ 6
unfolding find_cached_or_indexed lookup op_type_of
rank-process_batch_example =
    rank-process_batch small_json memory "u1" both no_docs (refl, (refl, tt)) answer_lem

written-IsCoherent : IsCoherent written
unfolding lookup
written-IsCoherent = record { keys = (refl, tt); fits = ((refl, omega arith), tt) }

abbrev both_committed : memory.Index
both_committed = (full_doc_wrapper written_doc ∷ [], full_doc_wrapper written_doc ∷ [])

Reach-IsCoherent_example : IsCoherent (reload_tick memory (commit_tick memory false written))
Reach-IsCoherent_example =
    Reach-IsCoherent small_json memory written-IsCoherent (
      Reach.next (Reach.next Reach.here (Step.commits written both_committed refl))
        (Step.reloads _))

find-commit_tick_example :
    find_cached_or_indexed memory (commit_tick memory false written) "u1" ≡ none
unfolding find_indexed indexed_of
find-commit_tick_example =
    find-commit_tick small_json memory written both_committed "u1" written-IsCoherent refl

-- The document is committed and the reader has reloaded.
abbrev settled : Engine memory
settled = record written {
  index = both_committed;
  snapshot = full_doc_wrapper written_doc ∷ [];
  uncommitted_docs = [];
}

-- The delete is of time 7; an upsert of time 6 is merged onto the document of time 5.
upsert_after_delete_example :
    find_cached_or_indexed memory
      (apply_upsert small_json memory
        (record write { writetime = 6 })
        (apply_delete small_json memory erase settled).0).0
      "u1"
    ≡ some (upserted small_json (some written_doc) (record write { writetime = 6 }) 0)
unfolding find_cached_or_indexed find_indexed indexed_of is_stale lookup full_doc_wrapper decode
    stored_form get value_get as_str
upsert_after_delete_example =
    upsert_after_delete small_json memory erase (record write { writetime = 6 }) settled written_doc
      refl refl refl (omega arith)
