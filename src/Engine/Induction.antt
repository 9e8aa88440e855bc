-- ===== src/Engine/Induction.antt =====
-- Induction over the operations of a batch.
use tantylla.Base.{ℕ, ◌≡◌, refl, ◌⊎◌, inl, inr, some, List, [], ◌∷◌, All, ◌≢◌}
use tantylla.Indexer.{IndexOperation, IndexBatchResponse, op_type_of}
use tantylla.Json.Deltas.{JsonOps}
use tantylla.Engine.Index.{Tantivy}
use tantylla.Engine.State.{Engine}
use tantylla.Engine.Batch.{
  Verdict, processed, skipped, failed, apply_op, process_ops, process_batch,
}

pub Verdict-cases : (v : Verdict) → (v ≡ processed) ⊎ (v ≡ skipped) ⊎ (v ≡ failed)
Verdict-cases processed = inl refl
Verdict-cases skipped = inr (inl refl)
Verdict-cases failed = inr (inr refl)

module _ (json : JsonOps) (t : Tantivy) (Q : IndexOperation → Type 0) (P : Engine t → Type 0) where
  abbrev pub Keeps : Type 0
  Keeps =
      (op : IndexOperation) (e : Engine t)
      → Q op
      → P e
      → P (apply_op json t (op_type_of op.op_type) op e).0

  process_ops_keeps :
      Keeps
      → (ops : List IndexOperation) (n s : ℕ) (e : Engine t) → All Q ops
      → P e
      → P (process_ops json t ops n s e).0
  unfolding process_ops
  process_ops_keeps keeps [] n s e q p = p
  process_ops_keeps keeps (op ∷ ops) n s e q p =
      let p' = keeps op e q.0 p in
      elim (Verdict-cases (apply_op json t (op_type_of op.op_type) op e).1) [
        | inl v ↦ rw (v, process_ops) (process_ops_keeps keeps ops _ _ _ q.1 p')
        | inr (inl v) ↦ rw (v, process_ops) (process_ops_keeps keeps ops _ _ _ q.1 p')
        | inr (inr v) ↦ rw (v, process_ops) p'
      ]

  pub process_batch_keeps :
      Keeps
      → (ops : List IndexOperation) (e : Engine t) → All Q ops
      → P e
      → P (process_batch json t ops e).0
  unfolding process_batch
  process_batch_keeps keeps ops e = process_ops_keeps keeps ops 0 0 e

  -- The same for batches that are answered, where no operation fails.
  abbrev pub KeepsAnswered : Type 0
  KeepsAnswered =
      (op : IndexOperation) (e : Engine t)
      → Q op
      → P e
      → (apply_op json t (op_type_of op.op_type) op e).1 ≢ failed
      → P (apply_op json t (op_type_of op.op_type) op e).0

  process_ops_answered :
      KeepsAnswered
      → (ops : List IndexOperation) (n s : ℕ) (e : Engine t) {r : IndexBatchResponse} → All Q ops
      → P e
      → (process_ops json t ops n s e).1 ≡ some r
      → P (process_ops json t ops n s e).0
  unfolding process_ops
  process_ops_answered keeps [] n s e q p a = p
  process_ops_answered keeps (op ∷ ops) n s e q p a =
      elim (Verdict-cases (apply_op json t (op_type_of op.op_type) op e).1) [
        | inl v ↦
            rw (v, process_ops)
              (process_ops_answered keeps ops _ _ _ q.1 (keeps op e q.0 p (λ f. cc))
                (rw (v, process_ops) at a))
        | inr (inl v) ↦
            rw (v, process_ops)
              (process_ops_answered keeps ops _ _ _ q.1 (keeps op e q.0 p (λ f. cc))
                (rw (v, process_ops) at a))
        | inr (inr v) ↦ absurd (cc (rw (v, process_ops) at a))
      ]

  pub process_batch_answered :
      KeepsAnswered
      → (ops : List IndexOperation) (e : Engine t) {r : IndexBatchResponse} → All Q ops
      → P e
      → (process_batch json t ops e).1 ≡ some r
      → P (process_batch json t ops e).0
  unfolding process_batch
  process_batch_answered keeps ops e q p a = process_ops_answered keeps ops 0 0 e q p a

pub All-Unit {ℓ} : {A : Type ℓ} (xs : List A) → All (λ _. Unit {0}) xs
All-Unit [] = tt
All-Unit (x ∷ xs) = (tt, All-Unit xs)
