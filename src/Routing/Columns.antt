-- ===== src/Routing/Columns.antt =====
-- The columns of a row in its payload and in its deltas.
use mathlib.Core.List.{append-nil, append_assoc}
use tantylla.Base.{
  String, false, not, ◌&&◌, Option, none, some, List, [], ◌∷◌, ◌++◌, ◌==◌, if◌then◌else◌, ◌≡◌, refl,
  ◌∙◌, sym, arith, eq_iff, contains, Bool-cases, inl, inr,
}
use tantylla.Base.Int.{ℤ}
use tantylla.Indexer.{CollectionDelta}
use tantylla.Json.Value.{
  or_else, Value, null, array, nil, Fields, end, get, get-entry, Distinct, entry-Distinct,
  or_default,
}
use tantylla.Json.Deltas.{JsonOps, apply_delta}
use tantylla.Json.DeltaLaws.{column_state}
use tantylla.Routing.Cql.{CqlValue, Formats, cql_to_json}
use tantylla.Routing.Serialize.{
  CdcRow, put, put_value, put_ttl, cdc_metadata, column_delta, has_changes, add_column, add_columns,
}

-- No name twice.
abbrev pub DistinctNames : List String → Type 0
DistinctNames [] = Unit
DistinctNames (name ∷ names) = (contains name names ≡ false) × DistinctNames names

put-Distinct : (k : String) (v : Value) (m : Fields) → Distinct m → Distinct (put k v m)
unfolding put
put-Distinct k v m d = entry-Distinct k null (λ _. v) m d

put_ttl-Distinct : (ttl : Option ℤ) (m : Fields) → Distinct m → Distinct (put_ttl ttl m)
put_ttl-Distinct none m d = d
put_ttl-Distinct (some ttl) m d = put-Distinct "_cdc_ttl" _ m d

pub cdc_metadata-Distinct : (row : CdcRow) → Distinct (cdc_metadata row)
unfolding cdc_metadata
cdc_metadata-Distinct row = put_ttl-Distinct row.ttl _ (
    put-Distinct "_cdc_batch_seq" _ _
      (put-Distinct "_cdc_time" _ _ (put-Distinct "_cdc_stream_id" _ end tt)))

module _ (formats : Formats) (to_string : Value → Option String) (row : CdcRow) where
  abbrev pub json_of : Option CqlValue → Option Value
  json_of none = none
  json_of (some v) = some (cql_to_json formats v)

  get-put_value :
      (k column : String) (v : Option CqlValue) (doc : Fields)
      → get k (put_value formats to_string column v doc)
        ≡ (if column == k then or_else (json_of v) (get k doc) else get k doc)
  unfolding put_value put
  get-put_value k column none doc = ground arith
  get-put_value k column (some v) doc = get-entry column k null (λ _. cql_to_json formats v) doc

  put_value-Distinct :
      (column : String) (v : Option CqlValue) (doc : Fields)
      → Distinct doc
      → Distinct (put_value formats to_string column v doc)
  unfolding put_value put
  put_value-Distinct column none doc d = d
  put_value-Distinct column (some v) doc d =
      entry-Distinct column null (λ _. cql_to_json formats v) doc d

  pub add_columns-Distinct :
      (columns : List String) (doc : Fields) (deltas : List CollectionDelta)
      → Distinct doc
      → Distinct (add_columns formats to_string row columns (doc, deltas)).0
  unfolding add_columns add_column
  add_columns-Distinct [] doc deltas d = d
  add_columns-Distinct (c ∷ columns) doc deltas d = elim (Bool-cases (row.collection_exists c)) [
    | inl e ↦ rw (e, add_columns) (add_columns-Distinct columns doc _ d)
    | inr e ↦
        rw (e, add_columns)
          (add_columns-Distinct columns _ deltas (put_value-Distinct c (row.get_value c) doc d))
  ]

  -- A key of the payload: the value of the scalar column of that name, where there is one.
  pub get-add_columns :
      (k : String) (columns : List String) (doc : Fields) (deltas : List CollectionDelta)
      → get k (add_columns formats to_string row columns (doc, deltas)).0 ≡ (
          if contains k columns && not (row.collection_exists k)
          then or_else (json_of (row.get_value k)) (get k doc)
          else get k doc)
  unfolding add_columns add_column
  get-add_columns k [] doc deltas = refl
  get-add_columns k (c ∷ columns) doc deltas =
      let next = add_column formats to_string row c (doc, deltas) in
      get-add_columns k columns next.0 next.1
      ∙ ground (arith, get-put_value k c (row.get_value c) doc, eq_iff c k)

  -- The deltas of the columns that are collections with changes.
  abbrev pub column_deltas : List String → List CollectionDelta
  column_deltas [] = []
  column_deltas (c ∷ columns) =
      let delta = column_delta formats to_string row c in
      if row.collection_exists c && has_changes delta
      then delta ∷ column_deltas columns
      else column_deltas columns

  pub deltas-add_columns :
      (columns : List String) (doc : Fields) (deltas : List CollectionDelta)
      → (add_columns formats to_string row columns (doc, deltas)).1
        ≡ deltas ++ column_deltas columns
  unfolding add_columns add_column
  deltas-add_columns [] doc deltas = sym (append-nil deltas)
  deltas-add_columns (c ∷ columns) doc deltas =
      let next = add_column formats to_string row c (doc, deltas) in
      deltas-add_columns columns next.0 next.1
      ∙ ground (
        arith,
        append_assoc deltas (column_delta formats to_string row c ∷ []) (column_deltas columns),
      )

  module _ (json : JsonOps) where
    -- A collection after the row.
    abbrev pub changed_collection : String → Option Value → Option Value
    changed_collection k o =
        let delta = column_delta formats to_string row k in
        if has_changes delta then some (apply_delta json delta (or_default (array nil) o)) else o

    column_state-absent :
        (k : String) (columns : List String) (o : Option Value)
        → contains k columns ≡ false
        → column_state json k (column_deltas columns) o ≡ o
    unfolding column_delta
    column_state-absent k [] o h = refl
    column_state-absent k (c ∷ columns) o h = ground (arith, column_state-absent k columns o)

    pub column_state-column_deltas :
        (k : String) (columns : List String) (o : Option Value)
        → DistinctNames columns
        → column_state json k (column_deltas columns) o
          ≡ (if contains k columns && row.collection_exists k then changed_collection k o else o)
    unfolding column_delta
    column_state-column_deltas k [] o d = refl
    column_state-column_deltas k (c ∷ columns) o d = ground (
      arith,
      eq_iff c k,
      column_state-column_deltas k columns o d.1,
      column_state-absent k columns (changed_collection k o),
    )
