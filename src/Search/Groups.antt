-- ===== src/Search/Groups.antt =====
-- Grouping by partition.
use tantylla.Base.{
  ℕ, zero, suc, ◌<◌, ◌≡◌, refl, ap, ◌∙◌, String, Option, none, some, List, [], ◌∷◌, map, take, drop,
  All-take, All-drop, map-take, map-drop, length, All, contains, min, arith, if◌then◌else◌, ◌==◌,
  eq_iff, Bool-cases, inl, inr,
}
use tantylla.Engine.Index.{Tantivy}
use tantylla.Search.Searcher.{Searcher, done}
use tantylla.Search.Hits.{stored_text, group_docs, grouped_hits}
use tantylla.Search.Laws.{Ranks}
use tantylla.Search.Page.{hits_of_docs_lem, collect_top-ranked, ranked_hit, Readable}

module _ {ℓ} {A : Type ℓ} (key : A → String) where
  -- The elements whose key stands neither in the list nor with an earlier element.
  abbrev pub firsts : List String → List A → List A
  firsts seen [] = []
  firsts seen (x ∷ xs) =
      let again = firsts seen xs in
      let first = firsts (key x ∷ seen) xs in if contains (key x) seen then again else x ∷ first

  -- The first element of a key.
  abbrev pub find_key : String → List A → Option A
  find_key k [] = none
  find_key k (x ∷ xs) = let rest = find_key k xs in if key x == k then some x else rest

  -- Each key stands once.
  abbrev pub DistinctBy : List A → Type ℓ
  DistinctBy [] = Unit
  DistinctBy (x ∷ xs) = (find_key (key x) xs ≡ none) × DistinctBy xs

  find_key-firsts :
      (k : String) (seen : List String) (xs : List A)
      → find_key k (firsts seen xs) ≡ (if contains k seen then none else find_key k xs)
  find_key-firsts k seen [] = ground arith
  find_key-firsts k seen (x ∷ xs) =
      ground
        (arith, find_key-firsts k seen xs, find_key-firsts k (key x ∷ seen) xs, eq_iff (key x) k)

  firsts-DistinctBy : (seen : List String) (xs : List A) → DistinctBy (firsts seen xs)
  firsts-DistinctBy seen [] = tt
  firsts-DistinctBy seen (x ∷ xs) = elim (Bool-cases (contains (key x) seen)) [
    | inl e ↦ rw e (firsts-DistinctBy seen xs)
    | inr e ↦ rw e (
      find_key-firsts (key x) (key x ∷ seen) xs ∙ ground (arith, eq_iff (key x) (key x)),
      firsts-DistinctBy (key x ∷ seen) xs,
    )
  ]

module _ {tantivy : Tantivy} (searcher : Searcher tantivy) where
  open tantivy use {Snapshot, Document}
  open searcher use {F32, Query, Address, doc}

  module _ (query : Query) (snapshot : Snapshot) (ranks : Ranks searcher query snapshot) where
    open ranks use {ranked, stored}

    abbrev pub partition_of : F32 × Address → String
    partition_of x = stored_text searcher "partition_key" (stored x.1)

    group_docs_lem :
        (seen : List String) (docs : List (F32 × Address))
        → All (Readable searcher query snapshot ranks) docs
        → group_docs searcher snapshot seen docs ≡ done (firsts partition_of seen docs)
    unfolding group_docs
    group_docs_lem seen [] a = refl
    group_docs_lem seen ((score, address) ∷ docs) a = rw a.0 (
        ground (
          arith,
          group_docs_lem seen docs a.1,
          group_docs_lem (stored_text searcher "partition_key" (stored address) ∷ seen) docs a.1,
        ))

    -- The best document of each partition, among the 10000 best documents.
    abbrev pub partition_groups : List (F32 × Address)
    partition_groups = firsts partition_of [] (take 10000 ranked)

    take-min-length :
        (n : ℕ) (docs : List (F32 × Address)) → take (min (length docs) n) docs ≡ take n docs
    take-min-length zero [] = refl
    take-min-length zero (x ∷ docs) =
        let e : min (suc (length docs)) 0 ≡ 0 = omega arith in rw e refl
    take-min-length (suc n) [] = let e : min 0 (suc n) ≡ 0 = omega arith in rw e refl
    take-min-length (suc n) (x ∷ docs) =
        let e : min (suc (length docs)) (suc n) ≡ suc (min (length docs) n) = omega arith in
        rw e (ap (◌∷◌ x) (take-min-length n docs))

    firsts-Readable :
        (seen : List String) (docs : List (F32 × Address))
        → All (Readable searcher query snapshot ranks) docs
        → All (Readable searcher query snapshot ranks) (firsts partition_of seen docs)
    firsts-Readable seen [] a = tt
    firsts-Readable seen (x ∷ docs) a =
        ground
          (arith, firsts-Readable seen docs a.1, firsts-Readable (partition_of x ∷ seen) docs a.1)

    pub grouped_hits-ranked :
        (limit offset : ℕ)
        → 0 < length ranked
        → grouped_hits searcher (length ranked) limit offset query snapshot
          ≡ done (
              take limit
                (drop offset (map (ranked_hit searcher query snapshot ranks) partition_groups)))
    unfolding grouped_hits
    grouped_hits-ranked limit offset h =
        let read : All (Readable searcher query snapshot ranks) (take 10000 ranked) =
          All-take _ 10000 ranked ranks.readable in
        let hit = ranked_hit searcher query snapshot ranks in
        rw
          (
            collect_top-ranked searcher query snapshot ranks (min (length ranked) 10000) 0
                (omega arith),
            take-min-length 10000 ranked,
            group_docs_lem [] (take 10000 ranked) read,
          )
          (hits_of_docs_lem searcher query snapshot ranks
              (take limit (drop offset partition_groups))
              (All-take _ limit (drop offset partition_groups)
                (All-drop _ offset partition_groups (firsts-Readable [] (take 10000 ranked) read)))
            ∙ ap done (
                map-take hit limit (drop offset partition_groups)
                ∙ ap (take limit) (map-drop hit offset partition_groups)))

    -- With grouping, the hits of a query that matches a document are the page of the groups, on an index that
    -- can be read: the groups are the documents that come first in their partition among the 10000 best ones,
    -- best first; no two are of one partition, and every partition of those documents has one.
    pub grouped_hits-groups :
        (limit offset : ℕ) (pk : String)
        → 0 < length ranked
        → (grouped_hits searcher (length ranked) limit offset query snapshot
            ≡ done (
                take limit
                  (drop offset (map (ranked_hit searcher query snapshot ranks) partition_groups))))
          × DistinctBy partition_of partition_groups
          × (find_key partition_of pk partition_groups
              ≡ find_key partition_of pk (take 10000 ranked))
    grouped_hits-groups limit offset pk h = (
      grouped_hits-ranked limit offset h,
      firsts-DistinctBy partition_of [] (take 10000 ranked),
      find_key-firsts partition_of pk [] (take 10000 ranked),
    )
