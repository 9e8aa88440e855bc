-- ===== src/Gateway/Consistency.antt =====
-- The consistency levels of `scatter_gather`, its answers and its errors.
use tantylla.Base.{
  ℕ, ◌%◌, ◌≤◌, ◌≡◌, refl, ◌∙◌, Ordering, Option, none, some, List, length, arith, inl, inr,
  Bool-cases, ltb, eqb, ltb→lt,
}
use tantylla.Indexer.{SearchRequest, Consistency, all_nodes}
use tantylla.Gateway.Facets.{u64_mod}
use tantylla.Gateway.Gather.{
  Answer, ScatterFail, Outcome, Gathered, ok, err, consistency_error, respond, finish,
  scatter_gather,
}
use tantylla.Gateway.Collect.{
  Meets, successes, sum_total_hits, failures, answers, gathered, successes-le-length,
  successful_nodes-gathered, total_hits-gathered, failed_nodes-gathered, scatter_gather-gathered,
}

module _ {F32 : Type 0} where
  -- What the test of the level says of the answers.
  abbrev Verdict : Consistency → ℕ → Gathered F32 → Option ScatterFail → Type 0
  Verdict c total g none = Meets c g.successful_nodes total
  Verdict c total g (some e) = ¬ (Meets c g.successful_nodes total) × (e.errors ≡ g.failed_nodes)

  consistency_error-Verdict :
      (c : Consistency) (total : ℕ) (g : Gathered F32)
      → g.successful_nodes ≤ total
      → Verdict c total g (consistency_error c total g)
  unfolding consistency_error
  consistency_error-Verdict all_nodes total g h = elim (Bool-cases (ltb g.successful_nodes total)) [
    | inl e ↦ rw e ((λ m. omega (arith, ltb→lt g.successful_nodes total e)), refl)
    | inr e ↦ rw e (ground arith)
  ]
  consistency_error-Verdict _ total g h = elim (Bool-cases (eqb g.successful_nodes 0)) [
    | inl e ↦ rw e ((λ m. ground arith), refl)
    | inr e ↦ rw e (ground arith)
  ]

module _ {F32 : Type 0} (partial_cmp : F32 → F32 → Option Ordering) where
  -- What the result of a query says of the answers: a response meets the consistency level and has the
  -- sum of the totals; an error means that the level is not met, and lists the failures.
  abbrev pub Described : SearchRequest F32 → List (Answer F32) → Outcome F32 → Type 0
  Described req rs (ok r) =
      Meets req.consistency (successes rs) (length rs)
      × (r.total_hits ≡ sum_total_hits rs % u64_mod)
  Described req rs (err e) =
      ¬ (Meets req.consistency (successes rs) (length rs)) × (e.errors ≡ failures 0 rs)

  finish-Described :
      (req : SearchRequest F32) (rs : List (Answer F32)) (g : Gathered F32) (o : Option ScatterFail)
      → g.successful_nodes ≡ successes rs
      → g.total_hits ≡ sum_total_hits rs % u64_mod
      → g.failed_nodes ≡ failures 0 rs
      → Verdict req.consistency (length rs) g o
      → Described req rs (finish partial_cmp req g o)
  unfolding finish respond
  finish-Described req rs g none s t f v = (rw s at v, t)
  finish-Described req rs g (some e) s t f v = ((rw s at v.0), v.1 ∙ f)

  -- A query is answered exactly when the nodes that answered meet its consistency level (all of them, or
  -- at least one); the response has the sum of their totals, modulo 2^64, and the error lists every
  -- failure under the number of its node.
  pub scatter_gather-Described :
      (clients : List (SearchRequest F32 → Answer F32)) (req : SearchRequest F32)
      → Described req (answers clients req) (scatter_gather partial_cmp clients req)
  scatter_gather-Described clients req =
      let rs = answers clients req in
      rw (scatter_gather-gathered partial_cmp clients req) (
        finish-Described req rs (gathered rs) _ (successful_nodes-gathered rs)
          (total_hits-gathered rs) (failed_nodes-gathered rs)
          (consistency_error-Verdict req.consistency (length rs) (gathered rs)
            (successes-le-length rs)))
