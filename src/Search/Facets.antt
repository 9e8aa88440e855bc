-- ===== src/Search/Facets.antt =====
-- The facet pass over all matching documents.
use tantylla.Base.{
  ℕ, ◌+◌, ◌%◌, ◌^◌, String, true, false, Option, none, some, List, [], ◌∷◌, map, leb,
}
use tantylla.Base.Sort
use tantylla.Base.Assoc.{update}
use tantylla.Indexer.{FacetBucket, FacetResult}
use tantylla.Json.Value.{Value, bool, number, string, array, Items, nil, cons}
use tantylla.Engine.Doc.{value_get, unwrap_or}
use tantylla.Engine.Index.{Tantivy}
use tantylla.Search.Searcher.{Searcher, Ran, done, ◌>>=◌, or_failed}
use tantylla.Search.Hits.{document_body}

-- field_name -> value_str -> count
abbrev pub Counts : Type 0
Counts = List (String × List (String × ℕ))

-- `*field_buckets.entry(value).or_insert(0) += 1`
unfoldable pub count_value : String → List (String × ℕ) → List (String × ℕ)
count_value value buckets = update value (λ o. (unwrap_or 0 o + 1) % 2 ^ 64) buckets

unfoldable pub count_values : List String → List (String × ℕ) → List (String × ℕ)
unfolding count_value
count_values [] buckets = buckets
count_values (value ∷ values) buckets = count_values values (count_value value buckets)

-- The texts among the elements of an array.
unfoldable pub string_elements : Items → List String
string_elements nil = []
string_elements (cons (string s) vs) = s ∷ string_elements vs
string_elements (cons _ vs) = string_elements vs

module _ {tantivy : Tantivy} (searcher : Searcher tantivy) where
  open tantivy use {Snapshot, Document, to_json}
  open searcher use {Query, Address, number_text, doc_set, doc}

  -- The values that a field's value counts for.
  unfoldable pub facet_values : Option Value → List String
  unfolding string_elements
  facet_values (some (string s)) = s ∷ []
  facet_values (some (number n)) = number_text n ∷ []
  facet_values (some (bool true)) = "true" ∷ []
  facet_values (some (bool false)) = "false" ∷ []
  facet_values (some (array vs)) = string_elements vs
  facet_values _ = []

  -- `for field_name in facet_fields`
  unfoldable pub count_fields : Value → List String → Counts → Counts
  unfolding facet_values count_values value_get
  count_fields doc_obj [] counts = counts
  count_fields doc_obj (field_name ∷ facet_fields) counts = count_fields doc_obj facet_fields (
      update field_name
        (λ o. count_values (facet_values (value_get field_name doc_obj)) (unwrap_or [] o)) counts)

  -- A document that cannot be read as JSON, or has no body, is passed over.
  unfoldable pub count_document : List String → Document → Counts → Counts
  unfolding count_fields document_body value_get
  count_document facet_fields d counts = elim (to_json d) [
    | none ↦ counts
    | some full_val ↦ elim (document_body (value_get "document" full_val)) [
      | none ↦ counts
      | some doc_obj ↦ count_fields doc_obj facet_fields counts
    ]
  ]

  unfoldable pub count_documents : Snapshot → List String → List Address → Counts → Ran Counts
  unfolding count_document
  count_documents snapshot facet_fields [] counts = done counts
  count_documents snapshot facet_fields (address ∷ all_docs) counts = do
    d ← or_failed (doc address snapshot)
    count_documents snapshot facet_fields all_docs (count_document facet_fields d counts)

  -- The larger counts come first.
  unfoldable pub facet_list : Counts → List FacetResult
  facet_list = map λ (g, m). record {
    field = g;
    buckets =
        Sort.sort (λ (a : FacetBucket) b. leb b.count a.count)
          (map (λ (w, n). record { value = w; count = n }) m);
  }

  unfoldable pub facets_of : List String → Query → Snapshot → Ran (List FacetResult)
  unfolding count_documents facet_list
  facets_of [] query snapshot = done []
  facets_of (f ∷ fs) query snapshot = do
    all_docs ← or_failed (doc_set query snapshot)
    counts ← count_documents snapshot (f ∷ fs) all_docs []
    done (facet_list counts)
