-- ===== src/Engine/Cache.antt =====
-- The cache of uncommitted documents through batches, commits, prunings and reloads: its keys and its
-- generations.
use tantylla.Base.{
  ℕ, ◌≤◌, ◌≡◌, refl, String, Bool, true, false, not, Option, none, some, List, [], ◌∷◌, All, arith,
  ltb, ◌==◌, Bool-cases, Option-cases, inl, inr,
}
use tantylla.Base.Int.{ℤ}
use tantylla.Base.Assoc.{remove, retain}
use tantylla.Base.AssocKeys.{
  DistinctKeys, insert-DistinctKeys, remove-DistinctKeys, retain-DistinctKeys, All-keep, All-insert,
}
use tantylla.Indexer.{
  IndexOperation, OpType, op_type_of, unspecified, upsert, delete, partition_delete,
}
use tantylla.Json.Deltas.{JsonOps}
use tantylla.Engine.Doc.{Doc}
use tantylla.Engine.Index.{Tantivy}
use tantylla.Engine.State.{Engine, find_cached_or_indexed}
use tantylla.Engine.Batch.{
  upserted, is_stale, put_doc, drop_doc, drop_partition, add_to_index, apply_upsert, apply_delete,
  apply_partition_delete, apply_op, process_batch,
}
use tantylla.Engine.Induction.{process_batch_keeps, All-Unit}
use tantylla.Engine.Committer.{commit_tick, prune_tick, reload_tick}

abbrev pub Fits : ℕ → String × Doc → Type 0
Fits generation (k, d) = (k ≡ d.id) × (d.generation ≤ generation)

pub record IsCoherent {t : Tantivy} (e : Engine t) : Type 0 where
  pub keys : DistinctKeys e.uncommitted_docs
  pub fits : All (Fits e.current_generation) e.uncommitted_docs

All-remove :
    (g : ℕ) (k : String) (m : List (String × Doc)) → All (Fits g) m → All (Fits g) (remove k m)
unfolding remove
All-remove g k m a = All-keep (Fits g) (λ x. not (x.0 == k)) m a

All-retain :
    (g : ℕ) (p : Doc → Bool) (m : List (String × Doc)) → All (Fits g) m → All (Fits g) (retain p m)
unfolding retain
All-retain g p m a = All-keep (Fits g) (λ x. p x.1) m a

module _ (json : JsonOps) (t : Tantivy) where
  -- The index has no part in the coherence of the cache.
  add_to_index-IsCoherent :
      (d : Option t.Document) (e : Engine t) → IsCoherent e → IsCoherent (add_to_index json t d e).0
  unfolding add_to_index
  add_to_index-IsCoherent none e c = c
  add_to_index-IsCoherent (some d) e c = elim (Option-cases (t.add_document d e.index)) [
    | inl q ↦ rw (q, add_to_index) c
    | inr (ix, q) ↦ rw (q, add_to_index) (record { keys = c.keys; fits = c.fits })
  ]

  put_doc-IsCoherent :
      (d : Doc) (e : Engine t)
      → d.generation ≤ e.current_generation
      → IsCoherent e
      → IsCoherent (put_doc json t d.id d e)
  unfolding put_doc
  put_doc-IsCoherent d e h c = record {
    keys = insert-DistinctKeys d.id d e.uncommitted_docs c.keys;
    fits = All-insert (Fits e.current_generation) d.id d e.uncommitted_docs (refl, h) c.fits;
  }

  apply_op-IsCoherent :
      (o : OpType) (op : IndexOperation) (e : Engine t)
      → IsCoherent e
      → IsCoherent (apply_op json t o op e).0
  unfolding apply_op apply_upsert upserted apply_delete drop_doc apply_partition_delete
      drop_partition
  apply_op-IsCoherent upsert op e c =
      elim (Bool-cases (is_stale (find_cached_or_indexed t e op.id) op.writetime)) [
        | inl q ↦ rw q c
        | inr q ↦ rw q (
            add_to_index-IsCoherent _ _ (
              put_doc-IsCoherent
                (upserted json (find_cached_or_indexed t e op.id) op e.current_generation) e
                (omega arith) c))
      ]
  apply_op-IsCoherent delete op e c =
      elim (Bool-cases (is_stale (find_cached_or_indexed t e op.id) op.writetime)) [
        | inl q ↦ rw q c
        | inr q ↦ rw q (record {
          keys = remove-DistinctKeys op.id e.uncommitted_docs c.keys;
          fits = All-remove e.current_generation op.id e.uncommitted_docs c.fits;
        })
      ]
  apply_op-IsCoherent partition_delete op e c = record {
    keys = retain-DistinctKeys _ e.uncommitted_docs c.keys;
    fits = All-retain e.current_generation _ e.uncommitted_docs c.fits;
  }
  apply_op-IsCoherent unspecified op e c = c

  pub process_batch-IsCoherent :
      (ops : List IndexOperation) (e : Engine t)
      → IsCoherent e
      → IsCoherent (process_batch json t ops e).0
  process_batch-IsCoherent ops e =
      process_batch_keeps json t (λ _. Unit {0}) IsCoherent
        (λ op e' _. apply_op-IsCoherent (op_type_of op.op_type) op e') ops e (All-Unit ops)

  -- The turns of the tasks that share an engine. A commit that fails is left out.
  pub data Step : Engine t → Engine t → Type 0 where
    batch : (ops : List IndexOperation) (e : Engine t) → Step e (process_batch json t ops e).0
    contended : (e : Engine t) → Step e (commit_tick t true e)
    commits :
        (e : Engine t) (ix : t.Index) → t.commit e.index ≡ some ix → Step e (commit_tick t false e)
    prunes : (busy : Bool) (now : ℤ) (e : Engine t) → Step e (prune_tick t busy now e)
    reloads : (e : Engine t) → Step e (reload_tick t e)

  pub data Reach (e : Engine t) : Engine t → Type 0 where
    here : Reach e e
    next : {f g : Engine t} → Reach e f → Step f g → Reach e g

  retain_none :
      (g : ℕ) (m : List (String × Doc)) → All (Fits g) m → retain (λ d. ltb g d.generation) m ≡ []
  unfolding retain
  retain_none g [] a = refl
  retain_none g ((k, d) ∷ m) a = ground (arith, retain_none g m a.1)

  -- From a coherent cache, a commit that succeeds leaves no document in it.
  pub commit_tick-empty :
      (e : Engine t) (ix : t.Index)
      → IsCoherent e
      → t.commit e.index ≡ some ix
      → (commit_tick t false e).uncommitted_docs ≡ []
  unfolding commit_tick
  commit_tick-empty e ix c q =
      rw (q, commit_tick) (retain_none e.current_generation e.uncommitted_docs c.fits)

  pub empty-IsCoherent : (e : Engine t) → e.uncommitted_docs ≡ [] → IsCoherent e
  empty-IsCoherent e h = record { keys = rw h tt; fits = rw h tt }

  prune_tick-IsCoherent :
      (busy : Bool) (now : ℤ) (e : Engine t) → IsCoherent e → IsCoherent (prune_tick t busy now e)
  unfolding prune_tick
  prune_tick-IsCoherent true now e c = c
  prune_tick-IsCoherent false now e c = elim (Option-cases (t.delete_expired now e.index)) [
    | inl q ↦ rw (q, prune_tick) c
    | inr (ix, q) ↦ elim (Option-cases (t.commit ix)) [
      | inl r ↦ rw (q, r, prune_tick) (record { keys = c.keys; fits = c.fits })
      | inr (ix', r) ↦ rw (q, r, prune_tick) (record { keys = c.keys; fits = c.fits })
    ]
  ]

  Step-IsCoherent : {e f : Engine t} → Step e f → IsCoherent e → IsCoherent f
  unfolding reload_tick
  Step-IsCoherent (batch ops e) c = process_batch-IsCoherent ops e c
  Step-IsCoherent (contended e) c = unfold commit_tick in c
  Step-IsCoherent (commits e ix q) c =
      empty-IsCoherent (commit_tick t false e) (commit_tick-empty e ix c q)
  Step-IsCoherent (prunes busy now e) c = prune_tick-IsCoherent busy now e c
  Step-IsCoherent (reloads e) c = record { keys = c.keys; fits = c.fits }

  -- Coherence of the cache is kept along every sequence of batches, commits, turns of the pruner and
  -- reloads in which no commit fails.
  pub Reach-IsCoherent : {e f : Engine t} → IsCoherent e → Reach e f → IsCoherent f
  Reach-IsCoherent c here = c
  Reach-IsCoherent c (next r s) = Step-IsCoherent s (Reach-IsCoherent c r)
