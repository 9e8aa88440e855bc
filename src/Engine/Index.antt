-- ===== src/Engine/Index.antt =====
-- Tantivy, as the engine uses it. The index holds the documents of the last commit and the changes
-- since; a searcher is a snapshot of some commit.
use tantylla.Base.{String, Option, List}
use tantylla.Base.Int.{ℤ}
use tantylla.Json.Value.{Value}

-- `Term::from_field_text` of the fields `id` and `partition_key`.
pub data Term : Type 0 where
  id_term partition_key_term : String → Term

pub record Tantivy : Type 1 where
  pub Index : Type 0
  pub Snapshot : Type 0
  pub Document : Type 0
  -- `TantivyDocument::parse_json`, of the JSON text of a value
  pub parse_json : Value → Option Document
  -- `doc.to_json(&schema)`, read back by `serde_json::from_str`
  pub to_json : Document → Option Value
  pub delete_term : Term → Index → Index
  -- `none` for an error
  pub add_document : Document → Index → Option Index
  pub commit : Index → Option Index
  -- `delete_query` of the documents that expire at the time or before
  pub delete_expired : ℤ → Index → Option Index
  -- the reader's reload
  pub reload : Index → Snapshot
  -- the documents that match a term query
  pub search : Term → Snapshot → List Document
