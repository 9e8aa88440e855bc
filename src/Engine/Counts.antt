-- ===== src/Engine/Counts.antt =====
-- The counters of `process_batch`.
use tantylla.Base.{ℕ, ◌+◌, ◌%◌, ◌≡◌, some, List, [], ◌∷◌, length, arith}
use tantylla.Indexer.{IndexOperation, IndexBatchResponse, op_type_of}
use tantylla.Json.Deltas.{JsonOps}
use tantylla.Engine.Index.{Tantivy}
use tantylla.Engine.State.{Engine}
use tantylla.Engine.Batch.{u32_mod, apply_op, process_ops, process_batch}

module _ (json : JsonOps) (tantivy : Tantivy) where
  total_mod-process_ops :
      (ops : List IndexOperation) (n s : ℕ) (e : Engine tantivy) {r : IndexBatchResponse}
      → (process_ops json tantivy ops n s e).1 ≡ some r
      → (r.processed_count + r.skipped_count) % u32_mod ≡ (n + s + length ops) % u32_mod
  unfolding process_ops
  total_mod-process_ops [] n s e q = ground arith
  total_mod-process_ops (op ∷ ops) n s e {r} q =
      let e' = (apply_op json tantivy (op_type_of op.op_type) op e).0 in
      ground (
        arith,
        total_mod-process_ops ops ((n + 1) % u32_mod) s e' {r = r},
        total_mod-process_ops ops n ((s + 1) % u32_mod) e' {r = r},
      )

  -- For a batch of any length the counters of the answer add up to its length in u32.
  pub total_mod-process_batch :
      (ops : List IndexOperation) (e : Engine tantivy) {r : IndexBatchResponse}
      → (process_batch json tantivy ops e).1 ≡ some r
      → (r.processed_count + r.skipped_count) % u32_mod ≡ length ops % u32_mod
  unfolding process_batch
  total_mod-process_batch ops e q = omega (arith, total_mod-process_ops ops 0 0 e q)
