-- ===== src/Search/Counts.antt =====
-- The counts of the facet pass.
use mathlib.Core.List.Perm
use mathlib.Core.List.{foldr}
use tantylla.Base.{
  ℕ, ◌+◌, ◌^◌, ◌<◌, ◌≡◌, refl, ap, ◌∙◌, String, Option, none, some, List, [], ◌∷◌, map, All, true,
  false, ◌==◌, eq_iff, if◌then◌else◌, arith,
}
use tantylla.Base.Assoc.{update}
use tantylla.Indexer.{FacetResult}
use tantylla.Json.Value.{Value, null, bool, number, string, array, object, Items, nil, cons}
use tantylla.Engine.Doc.{value_get, unwrap_or}
use tantylla.Engine.Index.{Tantivy}
use tantylla.Gateway.Facets.{facet_results}
use tantylla.Gateway.FacetCounts.{facet_count, bucket_count, agg_count, facet_count-facet_results}
use tantylla.Search.Searcher.{Searcher, done}
use tantylla.Search.Hits.{document_body}
use tantylla.Search.Facets.{
  Counts, string_elements, count_value, count_values, facet_values, count_fields, count_document,
  count_documents, facet_list, facets_of,
}
use tantylla.Search.Laws.{Ranks}

-- How often a text stands in a list.
abbrev pub occurrences : String → List String → ℕ
occurrences w [] = 0
occurrences w (v ∷ vs) = (if v == w then 1 else 0) + occurrences w vs

count_value_lem :
    (w v : String) (m : List (String × ℕ))
    → bucket_count w m + (if v == w then 1 else 0) < 2 ^ 64
    → bucket_count w (count_value v m) ≡ bucket_count w m + (if v == w then 1 else 0)
unfolding count_value update
count_value_lem w v [] h = ground arith
count_value_lem w v ((u, n) ∷ m) h =
    ground (arith, count_value_lem w v m, eq_iff u v, eq_iff v w, eq_iff u w)

count_values_lem :
    (w : String) (vs : List String) (m : List (String × ℕ))
    → bucket_count w m + occurrences w vs < 2 ^ 64
    → bucket_count w (count_values vs m) ≡ bucket_count w m + occurrences w vs
unfolding count_values
count_values_lem w [] m h = omega arith
count_values_lem w (v ∷ vs) m h =
    let one = count_value_lem w v m (omega arith) in
    omega (arith, one, count_values_lem w vs (count_value v m) (omega (arith, one)))

update_lem :
    (f w g : String) (vs : List String) (counts : Counts)
    → agg_count f w counts + (if g == f then occurrences w vs else 0) < 2 ^ 64
    → agg_count f w (update g (λ o. count_values vs (unwrap_or [] o)) counts)
      ≡ agg_count f w counts + (if g == f then occurrences w vs else 0)
unfolding update
update_lem f w g vs [] h = ground (arith, count_values_lem w vs [])
update_lem f w g vs ((k, m) ∷ counts) h =
    ground (
      arith,
      update_lem f w g vs counts,
      count_values_lem w vs m,
      eq_iff k g,
      eq_iff g f,
      eq_iff k f,
    )

module _ {tantivy : Tantivy} (searcher : Searcher tantivy) where
  open tantivy use {Snapshot, Document, to_json}
  open searcher use {Query, Address, doc}

  -- How often a value of a document's body has a text: a text, a number or a Boolean once, an array as
  -- often as it has the text among its elements.
  abbrev item_count : String → Items → ℕ
  item_count w nil = 0
  item_count w (cons (string s) vs) = (if s == w then 1 else 0) + item_count w vs
  item_count w (cons _ vs) = item_count w vs

  abbrev pub value_count : String → Option Value → ℕ
  value_count w none = 0
  value_count w (some null) = 0
  value_count w (some (bool b)) = if (if b then "true" else "false") == w then 1 else 0
  value_count w (some (number n)) = if searcher.number_text n == w then 1 else 0
  value_count w (some (string s)) = if s == w then 1 else 0
  value_count w (some (array vs)) = item_count w vs
  value_count w (some (object m)) = 0

  item_count_lem : (w : String) (vs : Items) → occurrences w (string_elements vs) ≡ item_count w vs
  unfolding string_elements
  item_count_lem w nil = refl
  item_count_lem w (cons (string s) vs) = omega (arith, item_count_lem w vs)
  item_count_lem w (cons null vs) = item_count_lem w vs
  item_count_lem w (cons (bool b) vs) = item_count_lem w vs
  item_count_lem w (cons (number n) vs) = item_count_lem w vs
  item_count_lem w (cons (array us) vs) = item_count_lem w vs
  item_count_lem w (cons (object m) vs) = item_count_lem w vs

  value_count_lem :
      (w : String) (o : Option Value) → occurrences w (facet_values searcher o) ≡ value_count w o
  unfolding facet_values
  value_count_lem w none = refl
  value_count_lem w (some null) = refl
  value_count_lem w (some (bool true)) = omega arith
  value_count_lem w (some (bool false)) = omega arith
  value_count_lem w (some (number n)) = omega arith
  value_count_lem w (some (string s)) = omega arith
  value_count_lem w (some (array vs)) = item_count_lem w vs
  value_count_lem w (some (object m)) = refl

  -- How often a document counts for a value of a field: for each time that the field is asked for, as
  -- often as the value stands in it.
  abbrev pub field_count : String → String → Value → List String → ℕ
  field_count f w body [] = 0
  field_count f w body (g ∷ fields) =
      (if g == f then value_count w (value_get g body) else 0) + field_count f w body fields

  abbrev body_count : String → String → List String → Option Value → ℕ
  body_count f w fields none = 0
  body_count f w fields (some body) = field_count f w body fields

  abbrev full_count : String → String → List String → Option Value → ℕ
  full_count f w fields none = 0
  full_count f w fields (some full) =
      body_count f w fields (document_body (value_get "document" full))

  abbrev pub document_count : String → String → List String → Document → ℕ
  document_count f w fields d = full_count f w fields (to_json d)

  count_fields_lem :
      (f w : String) (body : Value) (fields : List String) (counts : Counts)
      → agg_count f w counts + field_count f w body fields < 2 ^ 64
      → agg_count f w (count_fields searcher body fields counts)
        ≡ agg_count f w counts + field_count f w body fields
  unfolding count_fields
  count_fields_lem f w body [] counts h = omega arith
  count_fields_lem f w body (g ∷ fields) counts h =
      let vs = facet_values searcher (value_get g body) in
      let same = value_count_lem w (value_get g body) in
      let one = update_lem f w g vs counts (rw same (omega arith)) in
      let counted_once : agg_count f w (update g (λ o. count_values vs (unwrap_or [] o)) counts)
          ≡ agg_count f w counts + (if g == f then value_count w (value_get g body) else 0) =
        one ∙ ap (λ n. agg_count f w counts + (if g == f then n else 0)) same in
      omega (
        arith,
        counted_once,
        count_fields_lem f w body fields (update g (λ o. count_values vs (unwrap_or [] o)) counts)
            (omega (arith, counted_once)),
      )

  count_document_lem :
      (f w : String) (fields : List String) (d : Document) (counts : Counts)
      → agg_count f w counts + document_count f w fields d < 2 ^ 64
      → agg_count f w (count_document searcher fields d counts)
        ≡ agg_count f w counts + document_count f w fields d
  unfolding count_document
  count_document_lem f w fields d counts h = by_json (to_json d) h
    where
      by_body :
          (o : Option Value)
          → agg_count f w counts + body_count f w fields o < 2 ^ 64
          → agg_count f w
              (elim o [ none ↦ counts | some body ↦ count_fields searcher body fields counts ])
            ≡ agg_count f w counts + body_count f w fields o
      by_body none k = omega arith
      by_body (some body) k = count_fields_lem f w body fields counts k

      by_json :
          (o : Option Value)
          → agg_count f w counts + full_count f w fields o < 2 ^ 64
          → agg_count f w (elim o [
            | none ↦ counts
            | some full ↦ elim (document_body (value_get "document" full)) [
              | none ↦ counts
              | some body ↦ count_fields searcher body fields counts
            ]
          ])
            ≡ agg_count f w counts + full_count f w fields o
      by_json none k = omega arith
      by_json (some full) k = by_body (document_body (value_get "document" full)) k

  module _ (query : Query) (snapshot : Snapshot) (ranks : Ranks searcher query snapshot) where
    open ranks use {ranked, stored, all}

    abbrev pub stored_count : String → String → List String → Address → ℕ → ℕ
    stored_count f w fields address n = document_count f w fields (stored address) + n

    -- The counts of all the documents that match.
    abbrev pub total_count : String → String → List String → List Address → ℕ
    total_count f w fields addresses = foldr (stored_count f w fields) 0 addresses

    pub counted : List String → List Address → Counts → Counts
    counted fields [] counts = counts
    counted fields (address ∷ addresses) counts =
        counted fields addresses (count_document searcher fields (stored address) counts)

    count_documents_lem :
        (fields : List String) (addresses : List Address) (counts : Counts)
        → All (λ a. doc a snapshot ≡ some (stored a)) addresses
        → count_documents searcher snapshot fields addresses counts
          ≡ done (counted fields addresses counts)
    unfolding count_documents counted
    count_documents_lem fields [] counts a = refl
    count_documents_lem fields (address ∷ addresses) counts a = rw a.0 (
        count_documents_lem fields addresses
          (count_document searcher fields (stored address) counts) a.1)

    agg_count-counted :
        (f w : String) (fields : List String) (addresses : List Address) (counts : Counts)
        → agg_count f w counts + total_count f w fields addresses < 2 ^ 64
        → agg_count f w (counted fields addresses counts)
          ≡ agg_count f w counts + total_count f w fields addresses
    unfolding counted
    agg_count-counted f w fields [] counts h = omega arith
    agg_count-counted f w fields (address ∷ addresses) counts h =
        let one = count_document_lem f w fields (stored address) counts (omega arith) in
        omega (
          arith,
          one,
          agg_count-counted f w fields addresses
              (count_document searcher fields (stored address) counts) (omega (arith, one)),
        )

    total_count-all :
        (f w : String) (fields : List String)
        → total_count f w fields all
          ≡ total_count f w fields (map (λ (x : searcher.F32 × Address). x.1) ranked)
    total_count-all f w fields =
        Perm.foldr-eq (hlevel) (stored_count f w fields) (λ a b n. omega arith) ranks.all_ranked 0

    -- The facets of fields that are asked for: the pass over the documents of the query succeeds.
    pub facets_of-counted :
        (g : String) (fields : List String)
        → facets_of searcher (g ∷ fields) query snapshot
          ≡ done (facet_list searcher (counted (g ∷ fields) all []))
    unfolding facets_of
    facets_of-counted g fields =
        rw (ranks.doc_set_all, count_documents_lem (g ∷ fields) all [] ranks.all_readable) refl

    -- For every field and value the facets count as often as the documents that match do together,
    -- when that number fits in u64; the collector may give the documents in any order. A document
    -- counts more than once for a value that its array repeats, and for a field that is asked for
    -- more than once.
    pub facet_count-counted :
        (f w g : String) (fields : List String)
        → total_count f w (g ∷ fields) (map (λ (x : searcher.F32 × Address). x.1) ranked) < 2 ^ 64
        → (r : List FacetResult) × (facets_of searcher (g ∷ fields) query snapshot ≡ done r)
          × (facet_count f w r
              ≡ total_count f w (g ∷ fields) (map (λ (x : searcher.F32 × Address). x.1) ranked))
    unfolding facet_list facet_results
    facet_count-counted f w g fields h =
        let same = total_count-all f w (g ∷ fields) in
        (
          facet_list searcher (counted (g ∷ fields) all []),
          facets_of-counted g fields,
          facet_count-facet_results f w (counted (g ∷ fields) all [])
              ∙ agg_count-counted f w (g ∷ fields) all [] (omega (arith, same))
              ∙ omega (arith, same),
        )
