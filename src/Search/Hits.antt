-- ===== src/Search/Hits.antt =====
-- The hits of a search: the top documents, or the first document of each partition.
use tantylla.Base.{
  ℕ, String, Option, none, some, List, [], ◌∷◌, take, drop, contains, eqb, min, if◌then◌else◌,
}
use tantylla.Indexer.{SearchHit}
use tantylla.Json.Value.{Value, array, cons}
use tantylla.Engine.Doc.{value_get, first_value, as_str, unwrap_or}
use tantylla.Engine.Index.{Tantivy}
use tantylla.Search.Searcher.{Searcher, Ran, done, panicked, ◌>>=◌, or_failed}

-- The body under `document`: the first element of an array, or the value as it is.
unfoldable pub document_body : Option Value → Option Value
document_body (some (array (cons v vs))) = some v
document_body other = other

module _ {tantivy : Tantivy} (searcher : Searcher tantivy) where
  open tantivy use {Snapshot, Document, to_json}
  open searcher use {F32, Query, Address, value_text, top_docs, doc}

  -- `retrieved_doc.get_first(field)` as a text, or an empty one
  unfoldable pub stored_text : String → Document → String
  unfolding value_get first_value as_str
  stored_text field d = elim (to_json d) [
    | none ↦ ""
    | some full ↦ unwrap_or "" (as_str (first_value (value_get field full)))
  ]

  unfoldable pub payload_of : Document → String
  unfolding document_body value_get
  payload_of d = elim (to_json d) [
    | none ↦ "{}"
    | some full ↦ elim (document_body (value_get "document" full)) [
      | none ↦ "{}"
      | some body ↦ unwrap_or "{}" (value_text body)
    ]
  ]

  unfoldable pub hit_of : F32 → Document → SearchHit F32
  unfolding stored_text payload_of
  hit_of score d = record {
    id = stored_text "id" d;
    score = score;
    payload_json = payload_of d;
    partition_key = stored_text "partition_key" d;
  }

  -- `TopDocs::with_limit`, which panics at 0.
  unfoldable pub collect_top : ℕ → ℕ → Query → Snapshot → Ran (List (F32 × Address))
  collect_top limit offset query snapshot =
      if eqb limit 0 then panicked else or_failed (top_docs limit offset query snapshot)

  -- The hits of scored addresses; a document that cannot be read ends the search.
  unfoldable pub hits_of_docs : Snapshot → List (F32 × Address) → Ran (List (SearchHit F32))
  unfolding hit_of
  hits_of_docs snapshot [] = done []
  hits_of_docs snapshot ((score, address) ∷ docs) = do
    d ← or_failed (doc address snapshot)
    hits ← hits_of_docs snapshot docs
    done (hit_of score d ∷ hits)

  -- The loop over `all_scored`, with the set of the partition keys that were seen.
  unfoldable pub group_docs :
      Snapshot → List String → List (F32 × Address) → Ran (List (F32 × Address))
  unfolding stored_text
  group_docs snapshot seen [] = done []
  group_docs snapshot seen ((score, address) ∷ docs) = or_failed (doc address snapshot) >>= λ d.
      let pk = stored_text "partition_key" d in
      let again = group_docs snapshot seen docs in
      let first = group_docs snapshot (pk ∷ seen) docs in
      if contains pk seen then again else (first >>= λ grouped. done ((score, address) ∷ grouped))

  unfoldable pub grouped_hits : ℕ → ℕ → ℕ → Query → Snapshot → Ran (List (SearchHit F32))
  unfolding collect_top group_docs hits_of_docs
  grouped_hits total_hits limit offset query snapshot = do
    all_scored ← collect_top (min total_hits 10000) 0 query snapshot
    grouped ← group_docs snapshot [] all_scored
    hits_of_docs snapshot (take limit (drop offset grouped))

  unfoldable pub plain_hits : ℕ → ℕ → Query → Snapshot → Ran (List (SearchHit F32))
  unfolding collect_top hits_of_docs
  plain_hits limit offset query snapshot = do
    top ← collect_top limit offset query snapshot
    hits_of_docs snapshot top
