-- ===== src/Cluster/Collections.antt =====
-- The columns of a change row in the stored document, scalar ones and collections, by what `scylla_cdc`
-- says of the row.
use tantylla.Base.{
  ◌≡◌, refl, ap, ◌∙◌, String, Bool, true, false, not, ◌&&◌, ◌||◌, Option, none, some, List, [], ◌∷◌,
  map, contains, arith, Bool-cases, inl, inr, eq_iff,
}
use tantylla.Indexer.{IndexOperation, CollectionDelta}
use tantylla.Json.Value.{
  Value, array, object, nil, Fields, get, items_to_list, items_of_list, or_default,
}
use tantylla.Json.Deltas.{JsonOps, contains_value, current_elements, listed_values, apply_delta}
use tantylla.Json.DeltaLaws.{IsEquality, has-apply_delta}
use tantylla.Engine.Doc.{Doc}
use tantylla.Engine.Batch.{merged_body}
use tantylla.Routing.Cql.{CqlValue, Formats, cql_to_json}
use tantylla.Routing.Serialize.{CdcRow, cdc_metadata, column_delta, has_changes, serialize_cdc_row}
use tantylla.Routing.Columns.{DistinctNames, changed_collection}
use tantylla.Cluster.Upsert.{payload, column_after, merged_body-row}

-- The elements of an array; another value has none.
abbrev pub elements_of : Value → List Value
elements_of (array vs) = items_to_list vs
elements_of _ = []

abbrev pub elements_at : String → Fields → List Value
elements_at k m = elements_of (or_default (array nil) (get k m))

-- The text of a value, empty where it cannot be written.
abbrev pub text_of : Option String → String
text_of none = ""
text_of (some s) = s

module _ (formats : Formats) (to_string : Value → Option String) (json : JsonOps) where
  abbrev pub json_value : Option CqlValue → Option Value
  json_value none = none
  json_value (some v) = some (cql_to_json formats v)

  -- The elements that a row adds to a collection: those of its value, where it is written as an array.
  abbrev pub added_by : Option CqlValue → List Value
  added_by none = []
  added_by (some v) = elements_of (cql_to_json formats v)

  abbrev pub deleted_by : List CqlValue → List Value
  deleted_by vs = map (cql_to_json formats) vs

  -- The node reads the text of a value as the list of its elements, and as none where it is no array.
  abbrev pub ReadsAdded : Option CqlValue → Type 0
  ReadsAdded none = Unit
  ReadsAdded (some v) =
      listed_values json (text_of (to_string (cql_to_json formats v)))
      ≡ elements_of (cql_to_json formats v)

  abbrev pub ReadsDeleted : List CqlValue → Type 0
  ReadsDeleted vs =
      listed_values json (text_of (to_string (array (items_of_list (deleted_by vs)))))
      ≡ deleted_by vs

  current_elements_lem : (v : Value) → current_elements json v ≡ elements_of v
  unfolding current_elements
  current_elements_lem v = refl

  listed_empty : listed_values json "" ≡ []
  unfolding listed_values
  listed_empty = refl

  listed_added :
      (row : CdcRow) (k : String) (o : Option CqlValue)
      → row.get_value k ≡ o
      → ReadsAdded o
      → listed_values json (column_delta formats to_string row k).added_elements_json ≡ added_by o
  unfolding column_delta
  listed_added row k none h r = rw (h, column_delta) listed_empty
  listed_added row k (some v) h r = rw (h, column_delta) r

  listed_deleted :
      (row : CdcRow) (k : String) (vs : List CqlValue)
      → row.get_deleted_elements k ≡ vs
      → ReadsDeleted vs
      → listed_values json (column_delta formats to_string row k).deleted_elements_json
        ≡ deleted_by vs
  unfolding column_delta
  listed_deleted row k [] h r = rw (h, column_delta) listed_empty
  listed_deleted row k (v ∷ vs) h r = rw (h, column_delta) r

  unchanged :
      (d : CollectionDelta)
      → has_changes d ≡ false
      → (d.tombstoned ≡ false) × (d.added_elements_json ≡ "") × (d.deleted_elements_json ≡ "")
  unfolding has_changes
  unchanged d h =
      ground (arith, h, eq_iff d.added_elements_json "", eq_iff d.deleted_elements_json "")

  module _ (laws : IsEquality json) where
    abbrev has : Value → List Value → Bool
    has = contains_value json

    -- A delta without changes names no elements, so that the law of deltas holds without it too.
    has-changed_collection :
        (row : CdcRow) (k : String) (o : Option Value) (v : Value)
        → has v (
            elements_of
              (or_default (array nil) (changed_collection formats to_string row json k o)))
          ≡ ((has v (elements_of (or_default (array nil) o)) && not (row.is_value_deleted k))
              && not (
                  has v (
                    listed_values json
                      (column_delta formats to_string row k).deleted_elements_json)))
            || has v (listed_values json (column_delta formats to_string row k).added_elements_json)
    unfolding apply_delta current_elements column_delta
    has-changed_collection row k o v =
        let delta = column_delta formats to_string row k in
        elim (Bool-cases (has_changes delta)) [
          | inl e ↦ rw e (has-apply_delta json laws v (or_default (array nil) o) delta)
          | inr e ↦
              let (kept, added, deleted) = unchanged delta e in
              rw (e, added, deleted) (ground (arith, kept))
        ]

    abbrev Known : CdcRow → IndexOperation → Type 0
    Known row op =
        (text : String)
        → to_string (object (payload formats to_string json row)) ≡ some text
        → json.parse_value text ≡ some (object (payload formats to_string json row))

    -- A change row, serialized by the ingestor and merged by the node into a stored object, and a collection
    -- column of the row: a value is among the column's elements after the row when it was there before, the
    -- row does not delete the whole column and not this element, or when the row adds it. A row adds the
    -- elements of a value that is written as an array; a map is written as an object, which adds none, and a
    -- column that holds no array has no elements. The payload and the lists of the column are read as they
    -- were written. The names of the row's columns are distinct, and the column's is not that of a metadata
    -- field of the payload.
    pub merged_body-elements :
        (row : CdcRow) (op : IndexOperation) (d : Doc) (old : Fields) (k : String) (v : Value)
        → Known row op
        → serialize_cdc_row formats to_string row ≡ some (op.payload_json, op.collection_deltas)
        → d.doc ≡ object old
        → DistinctNames row.non_cdc_column_names
        → contains k row.non_cdc_column_names ≡ true
        → get k (cdc_metadata row) ≡ none
        → row.collection_exists k ≡ true
        → ReadsAdded (row.get_value k)
        → ReadsDeleted (row.get_deleted_elements k)
        → (new : Fields) × (merged_body json (some d) op ≡ object new)
          × (has v (elements_at k new)
              ≡ ((has v (elements_at k old) && not (row.is_value_deleted k))
                  && not (has v (deleted_by (row.get_deleted_elements k))))
                || has v (added_by (row.get_value k)))
    merged_body-elements row op d old k v known serialized body names named not_metadata exists
          added deleted =
        let (new, merged, at) =
          merged_body-row formats to_string json row op d old k known serialized body names named
            not_metadata in
        let changed : column_after formats to_string json row k (get k old)
            ≡ changed_collection formats to_string row json k (get k old) =
          rw exists refl in
        (
          new,
          merged,
          ap (λ o. has v (elements_of (or_default (array nil) o))) (at ∙ changed)
              ∙ has-changed_collection row k (get k old) v
              ∙ rw
                  (
                    listed_added row k (row.get_value k) refl added,
                    listed_deleted row k (row.get_deleted_elements k) refl deleted,
                  )
                  refl,
        )
