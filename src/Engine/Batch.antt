-- ===== src/Engine/Batch.antt =====
-- `process_batch`: one function for each arm of its loop. The writer's lock is held throughout, so no
-- commit comes between; poisoning of the lock is not modelled.
use tantylla.Base.{
  ℕ, ◌+◌, ◌%◌, ◌^◌, String, Bool, true, false, not, Option, none, some, List, [], ◌∷◌, leb, ◌==◌,
  if◌then◌else◌,
}
use tantylla.Base.Assoc.{insert, remove, retain}
use tantylla.Indexer.{IndexOperation, IndexBatchResponse, OpType, op_type_of}
use tantylla.Json.Value.{Value, null, object, end}
use tantylla.Json.Merge.{merge_json}
use tantylla.Json.Deltas.{JsonOps, apply_collection_deltas}
use tantylla.Engine.Doc.{Doc, expiry, full_doc_wrapper, unwrap_or}
use tantylla.Engine.Index.{Tantivy, id_term, partition_key_term}
use tantylla.Engine.State
use tantylla.Engine.State.{Engine}

abbrev pub u32_mod : ℕ
u32_mod = 2 ^ 32

-- What one operation comes to: counted as processed, counted as skipped, or an error that ends the
-- batch.
pub data Verdict : Type 0 where
  processed skipped failed : Verdict

-- The guard of upserts and deletes: a write that is not newer than what is there.
unfoldable pub is_stale : Option Doc → ℕ → Bool
is_stale none writetime = false
is_stale (some d) writetime = leb writetime d.writetime

unfoldable pub partition_key_of : IndexOperation → String
partition_key_of op = unwrap_or op.id op.partition_key

abbrev body_of : Option Doc → Value
body_of none = object end
body_of (some d) = d.doc

module _ (json : JsonOps) where
  -- The document that an upsert makes of what is there.
  unfoldable pub merged_body : Option Doc → IndexOperation → Value
  merged_body existing op =
      let patch = unwrap_or null (json.parse_value op.payload_json) in
      let merged = merge_json (body_of existing) patch in
      elim op.collection_deltas [
        | [] ↦ merged
        | d ∷ ds ↦ apply_collection_deltas json merged (d ∷ ds)
      ]

  unfoldable pub upserted : Option Doc → IndexOperation → ℕ → Doc
  unfolding merged_body expiry partition_key_of
  upserted existing op generation = record {
    id = op.id;
    partition_key = partition_key_of op;
    doc = merged_body existing op;
    expires_at = expiry op.writetime op.cdc_ttl;
    writetime = op.writetime;
    generation = generation;
  }

  module _ (tantivy : Tantivy) where
    open tantivy use {Index, Document, parse_json, delete_term, add_document}

    -- The writer's part of an upsert, after the old document's term is deleted.
    unfoldable pub add_to_index : Option Document → Engine tantivy → Engine tantivy × Verdict
    add_to_index none e = (e, skipped)
    add_to_index (some doc) e = elim (add_document doc e.index) [
      | none ↦ (e, failed)
      | some index ↦ (record e { index = index }, processed)
    ]

    -- The cache takes the document, and the index is told to drop the old one.
    unfoldable pub put_doc : String → Doc → Engine tantivy → Engine tantivy
    put_doc id doc e = record e {
      index = delete_term (id_term id) e.index;
      uncommitted_docs = insert id doc e.uncommitted_docs;
    }

    unfoldable pub apply_upsert : IndexOperation → Engine tantivy → Engine tantivy × Verdict
    apply_upsert op e =
        let existing = State.find_cached_or_indexed tantivy e op.id in
        let doc = upserted existing op e.current_generation in
        if is_stale existing op.writetime
        then (e, skipped)
        else add_to_index (parse_json (full_doc_wrapper doc)) (put_doc op.id doc e)

    unfoldable pub drop_doc : String → Engine tantivy → Engine tantivy
    drop_doc id e = record e {
      index = delete_term (id_term id) e.index;
      uncommitted_docs = remove id e.uncommitted_docs;
    }

    unfoldable pub apply_delete : IndexOperation → Engine tantivy → Engine tantivy × Verdict
    apply_delete op e =
        if is_stale (State.find_cached_or_indexed tantivy e op.id) op.writetime
        then (e, skipped)
        else (drop_doc op.id e, processed)

    unfoldable pub drop_partition : String → Engine tantivy → Engine tantivy
    drop_partition pk e = record e {
      index = delete_term (partition_key_term pk) e.index;
      uncommitted_docs = retain (λ doc. not (doc.partition_key == pk)) e.uncommitted_docs;
    }

    -- No writetime is compared here.
    unfoldable pub apply_partition_delete :
        IndexOperation → Engine tantivy → Engine tantivy × Verdict
    apply_partition_delete op e = (drop_partition (partition_key_of op) e, processed)

    unfoldable pub apply_op : OpType → IndexOperation → Engine tantivy → Engine tantivy × Verdict
    apply_op OpType.upsert op e = apply_upsert op e
    apply_op OpType.delete op e = apply_delete op e
    apply_op OpType.partition_delete op e = apply_partition_delete op e
    apply_op OpType.unspecified op e = (e, skipped)

    -- The loop, with its u32 counters; `none` is the error of the writer.
    unfoldable pub process_ops :
        List IndexOperation → ℕ → ℕ → Engine tantivy → Engine tantivy × Option IndexBatchResponse
    process_ops [] n s e =
        (e, some (record { processed_count = n; skipped_count = s; success = true }))
    process_ops (op ∷ ops) n s e =
        let (e', verdict) = apply_op (op_type_of op.op_type) op e in
        elim verdict [
          | processed ↦ process_ops ops ((n + 1) % u32_mod) s e'
          | skipped ↦ process_ops ops n ((s + 1) % u32_mod) e'
          | failed ↦ (e', none)
        ]

    unfoldable pub process_batch :
        List IndexOperation → Engine tantivy → Engine tantivy × Option IndexBatchResponse
    process_batch operations e = process_ops operations 0 0 e
