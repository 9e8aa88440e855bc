-- ===== src/Routing/Serialize.antt =====
-- `serialize_cdc_row` and `serialize_postimage_to_json` of rust/ingestor/src/router/utils.rs. What
-- `scylla_cdc` says of a row is a record, and `serde_json::to_string` is a parameter.
use tantylla.Base.{
  ℕ, String, Bool, not, ◌||◌, Option, none, some, List, [], ◌∷◌, ◌++◌, map, ◌==◌, if◌then◌else◌,
}
use tantylla.Base.Int.{ℤ}
use tantylla.Indexer.{CollectionDelta}
use tantylla.Engine.Doc.{number_of_i64}
use tantylla.Json.Value.{
  Value, null, number, string, array, object, Fields, end, entry, items_of_list,
}
use tantylla.Routing.Action.{OperationType}
use tantylla.Routing.Cql.{CqlValue, Formats, cql_to_json, cql_value_to_key_string}
use tantylla.Routing.Forward.{Rows}

-- `scylla_cdc::consumer::CDCRow`; the names are those of the columns that are not CDC's own.
pub record CdcRow : Type 0 where
  pub stream_id : String
  pub time : String
  pub unix_time : Option (ℕ × ℕ)
  pub batch_seq_no : ℤ
  pub ttl : Option ℤ
  pub operation : OperationType
  pub non_cdc_column_names : List String
  pub collection_exists : String → Bool
  pub is_value_deleted : String → Bool
  pub get_value : String → Option CqlValue
  pub get_deleted_elements : String → List CqlValue

-- map.insert(k, v)
unfoldable pub put : String → Value → Fields → Fields
put k v m = entry k null (λ _. v) m

abbrev pub put_ttl : Option ℤ → Fields → Fields
put_ttl none doc = doc
put_ttl (some ttl) doc = put "_cdc_ttl" (number (number_of_i64 ttl)) doc

-- The fields that both functions start with.
unfoldable pub cdc_metadata : CdcRow → Fields
unfolding put
cdc_metadata row = put_ttl row.ttl (
    put "_cdc_batch_seq" (number (number_of_i64 row.batch_seq_no))
      (put "_cdc_time" (string row.time) (put "_cdc_stream_id" (string row.stream_id) end)))

-- tombstoned || !added.is_empty() || !deleted.is_empty()
unfoldable pub has_changes : CollectionDelta → Bool
has_changes d =
    d.tombstoned || (not (d.added_elements_json == "") || not (d.deleted_elements_json == ""))

module _ (formats : Formats) (to_string : Value → Option String) where
  -- `if let Some(cql_value) = row.get_value(column_name)`
  unfoldable pub put_value : String → Option CqlValue → Fields → Fields
  unfolding put
  put_value column none doc = doc
  put_value column (some v) doc = put column (cql_to_json formats v) doc

  abbrev or_default : Option String → String
  or_default none = ""
  or_default (some s) = s

  abbrev added_text : Option CqlValue → String
  added_text none = ""
  added_text (some v) = or_default (to_string (cql_to_json formats v))

  abbrev deleted_text : List CqlValue → String
  deleted_text [] = ""
  deleted_text (v ∷ vs) =
      or_default (to_string (array (items_of_list (map (cql_to_json formats) (v ∷ vs)))))

  unfoldable pub column_delta : CdcRow → String → CollectionDelta
  column_delta row column = record {
    column = column;
    tombstoned = row.is_value_deleted column;
    added_elements_json = added_text (row.get_value column);
    deleted_elements_json = deleted_text (row.get_deleted_elements column);
  }

  -- One turn of the loop of `serialize_cdc_row`.
  unfoldable pub add_column :
      CdcRow → String → Fields × List CollectionDelta → Fields × List CollectionDelta
  unfolding put_value column_delta has_changes
  add_column row column (doc, deltas) =
      let delta = column_delta row column in
      if row.collection_exists column
      then (doc, if has_changes delta then deltas ++ delta ∷ [] else deltas)
      else (put_value column (row.get_value column) doc, deltas)

  unfoldable pub add_columns :
      CdcRow → List String → Fields × List CollectionDelta → Fields × List CollectionDelta
  unfolding add_column
  add_columns row [] serialized = serialized
  add_columns row (column ∷ columns) serialized =
      add_columns row columns (add_column row column serialized)

  abbrev with_deltas : List CollectionDelta → Option String → Option (String × List CollectionDelta)
  with_deltas deltas none = none
  with_deltas deltas (some text) = some (text, deltas)

  unfoldable pub serialize_cdc_row : CdcRow → Option (String × List CollectionDelta)
  unfolding add_columns cdc_metadata
  serialize_cdc_row row =
      let (doc, deltas) = add_columns row row.non_cdc_column_names (cdc_metadata row, []) in
      with_deltas deltas (to_string (object doc))

  unfoldable pub put_values : CdcRow → List String → Fields → Fields
  unfolding put_value
  put_values row [] doc = doc
  put_values row (column ∷ columns) doc =
      put_values row columns (put_value column (row.get_value column) doc)

  unfoldable pub serialize_postimage_to_json : CdcRow → Option String
  unfolding put_values cdc_metadata
  serialize_postimage_to_json row =
      to_string (object (put_values row row.non_cdc_column_names (cdc_metadata row)))

  -- The rows of the router, with the texts that are hashed and their hash.
  abbrev pub cdc_rows : (CqlValue → String) → (List String → ℕ) → Rows
  cdc_rows display hash_texts = record {
    Row = CdcRow;
    Value = CqlValue;
    get_value = λ row column. row.get_value column;
    operation = λ row. row.operation;
    ttl = λ row. row.ttl;
    unix_time = λ row. row.unix_time;
    display = display;
    hash_texts = hash_texts;
    key_string = cql_value_to_key_string formats;
    serialize_cdc_row = serialize_cdc_row;
    serialize_postimage = serialize_postimage_to_json;
  }
