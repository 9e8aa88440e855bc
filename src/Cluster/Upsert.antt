-- ===== src/Cluster/Upsert.antt =====
-- A change row through the ingestor and the node: `serialize_cdc_row` of
-- rust/ingestor/src/router/utils.rs, then the upsert of rust/node/src/engine/core.rs.
use tantylla.Base.{
  ◌≡◌, refl, ap, ◌∙◌, String, true, Option, none, some, List, [], ◌∷◌, contains, if◌then◌else◌,
  arith, sym, Option-cases, inl, inr,
}
use tantylla.Indexer.{IndexOperation, CollectionDelta}
use tantylla.Json.Value.{Value, null, object, Fields, get}
use tantylla.Json.Merge.{merge_json, merge_fields}
use tantylla.Json.MergeLaws.{patched, get-merge_fields}
use tantylla.Json.Deltas.{JsonOps, apply_deltas, apply_collection_deltas}
use tantylla.Json.DeltaLaws.{column_state, get-apply_deltas}
use tantylla.Engine.Doc.{Doc, unwrap_or}
use tantylla.Engine.Batch.{merged_body}
use tantylla.Routing.Cql.{Formats}
use tantylla.Routing.Serialize.{CdcRow, cdc_metadata, add_columns, serialize_cdc_row}
use tantylla.Routing.Columns.{
  DistinctNames, json_of, cdc_metadata-Distinct, add_columns-Distinct, get-add_columns,
  deltas-add_columns, changed_collection, column_state-column_deltas,
}

module _ (formats : Formats) (to_string : Value → Option String) (json : JsonOps) where
  -- The JSON object of the row, and its deltas.
  abbrev pub payload : CdcRow → Fields
  payload row =
      (add_columns formats to_string row row.non_cdc_column_names (cdc_metadata row, [])).0

  abbrev deltas_of : CdcRow → List CollectionDelta
  deltas_of row =
      (add_columns formats to_string row row.non_cdc_column_names (cdc_metadata row, [])).1

  -- A column's value after the row, from the one before.
  abbrev pub column_after : CdcRow → String → Option Value → Option Value
  column_after row k old =
      if row.collection_exists k
      then changed_collection formats to_string row json k old
      else patched old (json_of formats to_string row (row.get_value k))

  merged_body-deltas :
      (d : Doc) (op : IndexOperation) (old patch : Fields)
      → d.doc ≡ object old
      → json.parse_value op.payload_json ≡ some (object patch)
      → merged_body json (some d) op
        ≡ apply_collection_deltas json (merge_json (object old) (object patch)) op.collection_deltas
  unfolding merged_body apply_collection_deltas merge_json
  merged_body-deltas d op old patch body parses = by_cases op.collection_deltas
    where
      by_cases :
          (ds : List CollectionDelta)
          → (let merged = merge_json d.doc (unwrap_or null (json.parse_value op.payload_json)) in
              elim ds [ [] ↦ merged | e ∷ es ↦ apply_collection_deltas json merged (e ∷ es) ])
            ≡ apply_collection_deltas json (merge_json (object old) (object patch)) ds
      by_cases [] = rw (body, parses) refl
      by_cases (e ∷ es) = rw (body, parses) refl

  apply_to_merged :
      (row : CdcRow) (old : Fields) (ds : List CollectionDelta)
      → apply_collection_deltas json (merge_json (object old) (object (payload row))) ds
        ≡ object (apply_deltas json ds (merge_fields old (payload row)))
  unfolding apply_collection_deltas merge_json
  apply_to_merged row old ds = refl

  serialized_parts :
      (row : CdcRow) (text : String) (ds : List CollectionDelta)
      → serialize_cdc_row formats to_string row ≡ some (text, ds)
      → (to_string (object (payload row)) ≡ some text) × (deltas_of row ≡ ds)
  unfolding serialize_cdc_row
  serialized_parts row text ds h = elim (Option-cases (to_string (object (payload row)))) [
    | inl q ↦ absurd (ground (arith, q, h))
    | inr (t, q) ↦ ground (arith, q, h)
  ]

  get-merged :
      (row : CdcRow) (old : Fields) (k : String)
      → DistinctNames row.non_cdc_column_names
      → contains k row.non_cdc_column_names ≡ true
      → get k (cdc_metadata row) ≡ none
      → get k (apply_deltas json (deltas_of row) (merge_fields old (payload row)))
        ≡ column_after row k (get k old)
  get-merged row old k names named not_metadata =
      let columns = row.non_cdc_column_names in
      get-apply_deltas json k (deltas_of row) (merge_fields old (payload row))
      ∙ ap (λ ds. column_state json k ds (get k (merge_fields old (payload row))))
          (deltas-add_columns formats to_string row columns (cdc_metadata row) [])
      ∙ column_state-column_deltas formats to_string row json k columns _ names
      ∙ ground (
        arith,
        named,
        not_metadata,
        get-merge_fields k old (payload row) (
            add_columns-Distinct formats to_string row columns (cdc_metadata row) []
              (cdc_metadata-Distinct row)),
        get-add_columns formats to_string row k columns (cdc_metadata row) [],
      )

  -- A change row, serialized by the ingestor and merged by the node into a stored object, whose payload the
  -- node's parser reads back: a collection column has what its delta makes of its old value, a scalar column
  -- has the row's value merged over its old one, and a scalar column without a value in the row, a deleted
  -- one included, keeps its old value. The names of the row's columns are distinct, and the column's is not
  -- that of a metadata field of the payload.
  pub merged_body-row :
      (row : CdcRow) (op : IndexOperation) (d : Doc) (old : Fields) (k : String)
      → ((text : String)
          → to_string (object (payload row)) ≡ some text
          → json.parse_value text ≡ some (object (payload row)))
      → serialize_cdc_row formats to_string row ≡ some (op.payload_json, op.collection_deltas)
      → d.doc ≡ object old
      → DistinctNames row.non_cdc_column_names
      → contains k row.non_cdc_column_names ≡ true
      → get k (cdc_metadata row) ≡ none
      → (new : Fields) × (merged_body json (some d) op ≡ object new)
        × (get k new ≡ column_after row k (get k old))
  merged_body-row row op d old k reads serialized body names named not_metadata =
      let parts = serialized_parts row op.payload_json op.collection_deltas serialized in
      (
        apply_deltas json (deltas_of row) (merge_fields old (payload row)),
        merged_body-deltas d op old (payload row) body (reads op.payload_json parts.0)
            ∙ ap (apply_collection_deltas json (merge_json (object old) (object (payload row))))
                (sym parts.1)
            ∙ apply_to_merged row old (deltas_of row),
        get-merged row old k names named not_metadata,
      )
