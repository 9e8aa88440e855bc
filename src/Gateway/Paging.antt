-- ===== src/Gateway/Paging.antt =====
-- The page that `scatter_gather` cuts from the hits of the nodes.
use tantylla.Base.{
  ℕ, zero, suc, ◌+◌, ◌≤◌, ◌<◌, ◌≡◌, refl, ap, sym, ◌∙◌, Ordering, Option, none, List, [], ◌∷◌, map,
  length, take, drop, concat, All, page_of_prefix, arith, Bool, Bool-cases, leb, inl, inr, leb→le,
}
use tantylla.Base.Sort
use tantylla.Base.Sort.{IsPreorder, IsSorted, take-sort-concat}
use tantylla.Indexer.{SearchRequest, SearchResponse, SearchHit, Consistency, all_nodes}
use tantylla.Gateway.Gather.{
  Answer, Gathered, ok, paged, node_request, respond, finish, consistency_error, score_before,
  scatter_gather, u32_mod,
}
use tantylla.Gateway.Collect.{
  hits_of, successes, answers, gathered, all_hits-gathered, successful_nodes-gathered,
  scatter_gather-gathered, length-answers,
}

drop-nil_of_le {ℓ} : {A : Type ℓ} (n : ℕ) (xs : List A) → length xs ≤ n → drop n xs ≡ []
drop-nil_of_le zero [] h = refl
drop-nil_of_le zero (x ∷ xs) h = absurd (omega arith)
drop-nil_of_le (suc n) [] h = refl
drop-nil_of_le (suc n) (x ∷ xs) h = drop-nil_of_le n xs (omega arith)

take-nil {ℓ} : {A : Type ℓ} (n : ℕ) → take {A = A} n [] ≡ []
take-nil zero = refl
take-nil (suc n) = refl

-- The test of the offset changes nothing: beyond the end the slice is empty anyway.
paged_lem {ℓ} :
    {A : Type ℓ} (offset limit : ℕ) (xs : List A)
    → paged offset limit xs ≡ take limit (drop offset xs)
unfolding paged
paged_lem offset limit xs = elim (Bool-cases (leb (length xs) offset)) [
  | inl e ↦ rw (e, drop-nil_of_le offset xs (leb→le _ _ e)) (sym (take-nil limit))
  | inr e ↦ rw e
]

module _ {F32 : Type 0} where
  -- For requests that differ from `base` in limit and offset alone, a node that ranks its hits as in
  -- `ranked`, best first, answers with the part of them that the request names.
  abbrev pub Serves :
      SearchRequest F32 → (SearchRequest F32 → Answer F32) → List (SearchHit F32) → Type 0
  Serves base client ranked =
      (limit offset : ℕ)
      → 0 < limit
      → (r : SearchResponse F32) × (client (record base { limit = limit; offset = offset }) ≡ ok r)
        × (r.hits ≡ take limit (drop offset ranked))

  abbrev pub ServesAll :
      SearchRequest F32
      → List (SearchRequest F32 → Answer F32)
      → List (List (SearchHit F32))
      → Type 0
  ServesAll base [] [] = Unit
  ServesAll base (c ∷ cs) (r ∷ rs) = Serves base c r × ServesAll base cs rs
  ServesAll base _ _ = ⊥

  module _ (req : SearchRequest F32) (fits : req.limit + req.offset < u32_mod)
      (some_hit : 0 < req.limit) where
    limit-node_request : (node_request req).limit ≡ req.limit + req.offset
    unfolding node_request
    limit-node_request = omega arith

    answer-hits :
        (c : SearchRequest F32 → Answer F32) (r : List (SearchHit F32))
        → Serves req c r
        → hits_of (c (node_request req)) ≡ take (req.limit + req.offset) r
    unfolding node_request
    answer-hits c r s =
        let (resp, e, h) = s (node_request req).limit 0 (omega (arith, limit-node_request)) in
        rw e (h ∙ ap (λ n. take n r) limit-node_request)

    hits-answers :
        (cs : List (SearchRequest F32 → Answer F32)) (rs : List (List (SearchHit F32)))
        → ServesAll req cs rs
        → map hits_of (answers cs req) ≡ map (take (req.limit + req.offset)) rs
    hits-answers [] [] s = refl
    hits-answers [] (r ∷ rs) s = absurd s
    hits-answers (c ∷ cs) [] s = absurd s
    hits-answers (c ∷ cs) (r ∷ rs) s = cc (answer-hits c r s.0, hits-answers cs rs s.1)

    successes-answers :
        (cs : List (SearchRequest F32 → Answer F32)) (rs : List (List (SearchHit F32)))
        → ServesAll req cs rs
        → successes (answers cs req) ≡ length cs
    unfolding node_request
    successes-answers [] [] s = refl
    successes-answers [] (r ∷ rs) s = absurd s
    successes-answers (c ∷ cs) [] s = absurd s
    successes-answers (c ∷ cs) (r ∷ rs) s =
        let (resp, e, h) = s.0 (node_request req).limit 0 (omega (arith, limit-node_request)) in
        rw e (ap suc (successes-answers cs rs s.1))

-- When all the nodes answer, and there is one, no level refuses.
consistency_error-none :
    {F32 : Type 0} (c : Consistency) (total : ℕ) (g : Gathered F32)
    → g.successful_nodes ≡ total
    → 0 < total
    → consistency_error c total g ≡ none
unfolding consistency_error
consistency_error-none all_nodes total g h p = ground arith
consistency_error-none _ total g h p = ground arith

module _ {F32 : Type 0} (partial_cmp : F32 → F32 → Option Ordering) where
  abbrev before : SearchHit F32 → SearchHit F32 → Bool
  before = score_before partial_cmp

  hits-respond :
      (req : SearchRequest F32) (g : Gathered F32)
      → (respond partial_cmp req g).hits
        ≡ take req.limit (drop req.offset (Sort.sort before g.all_hits))
  unfolding respond
  hits-respond req g = paged_lem req.offset req.limit (Sort.sort before g.all_hits)

  page_of_union :
      (o l m : ℕ) (ranked : List (List (SearchHit F32)))
      → IsPreorder before
      → All (IsSorted before) ranked
      → o + l ≤ m
      → take l (drop o (Sort.sort before (concat (map (take m) ranked))))
        ≡ take l (drop o (Sort.sort before (concat ranked)))
  page_of_union o l m ranked pre sorted h =
      sym (page_of_prefix o l m _ h)
      ∙ ap (λ hs. take l (drop o hs)) (take-sort-concat before pre m m ranked (omega arith) sorted)
      ∙ page_of_prefix o l m _ h

  -- When every node serves its own ranked hits by limit and offset, and the order of scores is a
  -- preorder, the page of a query is the page of the sorted hits of all the nodes, although each node
  -- sends only its first `limit + offset`; that sum fits in u32 and some hit is asked for.
  pub hits-scatter_gather :
      (clients : List (SearchRequest F32 → Answer F32)) (ranked : List (List (SearchHit F32)))
      (req : SearchRequest F32)
      → IsPreorder before
      → ServesAll req clients ranked
      → All (IsSorted before) ranked
      → 0 < length clients
      → 0 < req.limit
      → req.limit + req.offset < u32_mod
      → (r : SearchResponse F32) × (scatter_gather partial_cmp clients req ≡ ok r)
        × (r.hits ≡ take req.limit (drop req.offset (Sort.sort before (concat ranked))))
  unfolding finish
  hits-scatter_gather clients ranked req pre serves sorted nonempty pos fits =
      let rs = answers clients req in
      let answered = successes-answers req fits pos clients ranked serves in
      let none_failed =
        consistency_error-none req.consistency (length rs) (gathered rs)
          (omega (arith, successful_nodes-gathered rs, answered, length-answers clients req))
          (omega (arith, length-answers clients req)) in
      (
        respond partial_cmp req (gathered rs),
        scatter_gather-gathered partial_cmp clients req
            ∙ ap (finish partial_cmp req (gathered rs)) none_failed,
        hits-respond req (gathered rs)
            ∙ ap (λ hs. take req.limit (drop req.offset (Sort.sort before hs)))
                (all_hits-gathered rs ∙ ap concat (hits-answers req fits pos clients ranked serves))
            ∙ page_of_union req.offset req.limit (req.limit + req.offset) ranked pre sorted
                (omega arith),
      )
