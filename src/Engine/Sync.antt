-- ===== src/Engine/Sync.antt =====
-- The cache and the index that is yet to be committed, through the operations of a batch.
use tantylla.Base.{
  ◌≡◌, ◌≢◌, refl, sym, ap, ◌∙◌, subst, String, true, false, not, none, some, List, [], ◌∷◌, keep,
  arith, ◌==◌, eq_iff, eq_refl, Bool-cases, Option-cases, inl, inr,
}
use tantylla.Base.Assoc.{lookup, lookup-insert, lookup-remove}
use tantylla.Base.AssocKeys.{
  DistinctKeys, keep_if-eq-some, lookup-retain, insert-DistinctKeys, remove-DistinctKeys,
  retain-DistinctKeys,
}
use tantylla.Indexer.{
  IndexOperation, IndexBatchResponse, OpType, op_type_of, upsert, delete, partition_delete,
  unspecified,
}
use tantylla.Json.Deltas.{JsonOps}
use tantylla.Engine.Doc.{Doc, full_doc_wrapper}
use tantylla.Engine.Index.{Tantivy, id_term, partition_key_term}
use tantylla.Engine.State.{Engine, find_cached_or_indexed}
use tantylla.Engine.Stored.{Documented, InI64, expiry-InI64}
use tantylla.Engine.Induction.{process_batch_answered, All-Unit}
use tantylla.Engine.Batch.{
  failed, is_stale, upserted, add_to_index, put_doc, drop_doc, drop_partition, apply_upsert,
  apply_delete, apply_partition_delete, apply_op, process_batch,
}
use tantylla.Engine.Synced.{
  option_list, keep-append, keep_none, Synced, InSync, Synced-delete_term, Synced-add_document,
}

module _ (json : JsonOps) (t : Tantivy) (doc : Documented t) where
  open doc use {pending, matches}

  abbrev pub Sync : Engine t → Type 0
  Sync = InSync t doc

  -- The other cached documents do not match the id that is written.
  put_doc_other :
      (d : Doc) (e : Engine t) (j : String) (dj : Doc)
      → Sync e
      → (d.id == j) ≡ false
      → lookup j (put_doc json t d.id d e).uncommitted_docs ≡ some dj
      → Synced t doc (put_doc json t d.id d e).index j dj
  unfolding put_doc
  put_doc_other d e j dj s other found =
      let old : lookup j e.uncommitted_docs ≡ some dj =
        ground (arith, lookup-insert d.id j d e.uncommitted_docs) in
      let y = s.synced j dj old in
      Synced-delete_term t doc (id_term d.id) e.index j dj
        (λ v parsed.
          doc.matches_id dj v d.id parsed
          ∙ ground (arith, eq_iff dj.id d.id, eq_iff d.id j, y.same_id))
        y

  -- Of its own id nothing is left in the index.
  put_doc_self :
      (d : Doc) (e : Engine t)
      → keep (matches (id_term d.id)) (pending (put_doc json t d.id d e).index) ≡ []
  unfolding put_doc
  put_doc_self d e =
      ap (keep (matches (id_term d.id))) (doc.pending-delete_term (id_term d.id) e.index)
      ∙ keep_none (matches (id_term d.id)) (pending e.index)

  put_doc_found :
      (d dj : Doc) (e : Engine t) (j : String)
      → (d.id == j) ≡ true
      → lookup j (put_doc json t d.id d e).uncommitted_docs ≡ some dj
      → (d ≡ dj) × (d.id ≡ j)
  unfolding put_doc
  put_doc_found d dj e j same found =
      ground (arith, lookup-insert d.id j d e.uncommitted_docs, eq_iff d.id j)

  put_doc-distinct :
      (d : Doc) (e : Engine t)
      → DistinctKeys e.uncommitted_docs
      → DistinctKeys (put_doc json t d.id d e).uncommitted_docs
  unfolding put_doc
  put_doc-distinct d e k = insert-DistinctKeys d.id d e.uncommitted_docs k

  put_doc-InSync :
      (d : Doc) (e : Engine t) (ix : t.Index)
      → Sync e
      → Synced t doc ix d.id d
      → ((j : String) (dj : Doc)
          → (d.id == j) ≡ false
          → Synced t doc (put_doc json t d.id d e).index j dj
          → Synced t doc ix j dj)
      → Sync (record (put_doc json t d.id d e) { index = ix })
  put_doc-InSync d e ix s self others = record {
    distinct = put_doc-distinct d e s.distinct;
    synced = λ j dj found. elim (Bool-cases (d.id == j)) [
      | inr other ↦ others j dj other (put_doc_other d e j dj s other found)
      | inl same ↦
          let (q, i) = put_doc_found d dj e j same found in
          subst (λ x. Synced t doc ix j x) q (subst (λ x. Synced t doc ix x d) i self)
    ];
  }

  -- A document that the index refuses is cached, and is no longer in the index.
  refused-InSync :
      (d : Doc) (e : Engine t)
      → Sync e
      → InI64 d.expires_at
      → t.parse_json (full_doc_wrapper d) ≡ none
      → Sync (put_doc json t d.id d e)
  refused-InSync d e s range parsed =
      put_doc-InSync d e (put_doc json t d.id d e).index s
        (record {
          same_id = refl;
          in_range = range;
          stored = put_doc_self d e ∙ sym (ap option_list parsed);
        })
        (λ j dj _ y. y)

  -- One that the index takes is the only one of its id.
  accepted-InSync :
      (d : Doc) (e : Engine t) (v : t.Document) (ix : t.Index)
      → Sync e
      → InI64 d.expires_at
      → t.parse_json (full_doc_wrapper d) ≡ some v
      → t.add_document v (put_doc json t d.id d e).index ≡ some ix
      → Sync (record (put_doc json t d.id d e) { index = ix })
  accepted-InSync d e v ix s range parsed added =
      put_doc-InSync d e ix s
        (record {
          same_id = refl;
          in_range = range;
          stored =
              ap (keep (matches (id_term d.id))) (doc.pending-add_document v _ ix added)
              ∙ keep-append (matches (id_term d.id)) _ (v ∷ [])
              ∙ rw (put_doc_self d e, doc.matches_id d v d.id parsed, eq_refl d.id)
                  (sym (ap option_list parsed));
        })
        (λ j dj other y.
          Synced-add_document t doc v _ ix j dj added (doc.matches_id d v j parsed ∙ other) y)

  add-InSync :
      (d : Doc) (e : Engine t)
      → Sync e
      → InI64 d.expires_at
      → (add_to_index json t (t.parse_json (full_doc_wrapper d)) (put_doc json t d.id d e)).1
        ≢ failed
      → Sync (add_to_index json t (t.parse_json (full_doc_wrapper d)) (put_doc json t d.id d e)).0
  unfolding add_to_index
  add-InSync d e s range passed = elim (Option-cases (t.parse_json (full_doc_wrapper d))) [
    | inl parsed ↦ rw (parsed, add_to_index) (refused-InSync d e s range parsed)
    | inr (v, parsed) ↦ elim (Option-cases (t.add_document v (put_doc json t d.id d e).index)) [
      | inl full ↦ absurd (passed (rw (parsed, full, add_to_index)))
      | inr (ix, added) ↦
          rw (parsed, added, add_to_index) (accepted-InSync d e v ix s range parsed added)
    ]
  ]

  drop_doc-InSync : (id : String) (e : Engine t) → Sync e → Sync (drop_doc json t id e)
  unfolding drop_doc
  drop_doc-InSync id e s = record {
    distinct = remove-DistinctKeys id e.uncommitted_docs s.distinct;
    synced = λ j dj found.
        let l = lookup-remove id j e.uncommitted_docs in
        let y = s.synced j dj (ground arith) in
        Synced-delete_term t doc (id_term id) e.index j dj
          (λ v parsed.
            doc.matches_id dj v id parsed ∙ ground (arith, eq_iff dj.id id, eq_iff id j, y.same_id))
          y;
  }

  drop_partition-InSync : (pk : String) (e : Engine t) → Sync e → Sync (drop_partition json t pk e)
  unfolding drop_partition
  drop_partition-InSync pk e s = record {
    distinct = retain-DistinctKeys _ e.uncommitted_docs s.distinct;
    synced = λ j dj found.
        let k =
          keep_if-eq-some (λ d. not (d.partition_key == pk)) (lookup j e.uncommitted_docs) dj
            (sym (lookup-retain j (λ d. not (d.partition_key == pk)) e.uncommitted_docs s.distinct)
              ∙ found) in
        Synced-delete_term t doc (partition_key_term pk) e.index j dj
          (λ v parsed. doc.matches_partition_key dj v pk parsed ∙ ground (arith, k.1))
          (s.synced j dj k.0);
  }

  apply_op-InSync :
      (o : OpType) (op : IndexOperation) (e : Engine t)
      → Sync e
      → (apply_op json t o op e).1 ≢ failed
      → Sync (apply_op json t o op e).0
  unfolding apply_op apply_upsert apply_delete apply_partition_delete upserted
  apply_op-InSync upsert op e s passed =
      elim (Bool-cases (is_stale (find_cached_or_indexed t e op.id) op.writetime)) [
        | inl q ↦ rw q s
        | inr q ↦ rw q (
            add-InSync (upserted json (find_cached_or_indexed t e op.id) op e.current_generation) e
              s (expiry-InI64 op.writetime op.cdc_ttl) (rw q at passed))
      ]
  apply_op-InSync delete op e s passed =
      elim (Bool-cases (is_stale (find_cached_or_indexed t e op.id) op.writetime)) [
        | inl q ↦ rw q s
        | inr q ↦ rw q (drop_doc-InSync op.id e s)
      ]
  apply_op-InSync partition_delete op e s passed = drop_partition-InSync _ e s
  apply_op-InSync unspecified op e s passed = s

  pub process_batch-InSync :
      (ops : List IndexOperation) (e : Engine t) {r : IndexBatchResponse}
      → Sync e
      → (process_batch json t ops e).1 ≡ some r
      → Sync (process_batch json t ops e).0
  process_batch-InSync ops e s answered =
      process_batch_answered json t (λ _. Unit {0}) Sync
        (λ op e' _. apply_op-InSync (op_type_of op.op_type) op e') ops e (All-Unit ops) s answered

  pub empty-InSync : (e : Engine t) → e.uncommitted_docs ≡ [] → Sync e
  unfolding lookup
  empty-InSync e h = record {
    distinct = rw h tt;
    synced = λ id d found. absurd (cc (rw h at found));
  }
