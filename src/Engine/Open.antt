-- ===== src/Engine/Open.antt =====
-- `Engine::new`: the schema of the index, and the steps that open it. The file system and the opening of
-- an index are parameters; the tasks that `new` starts are the turns of Committer.
use tantylla.Base.{ℕ, String, Bool, true, Option, none, some, List, [], ◌∷◌, ◌++◌, length}
use tantylla.Engine.Index.{Tantivy}
use tantylla.Engine.State.{Engine}

-- The options of a field: `STRING`, `STORED` and `FAST`.
pub data Flag : Type 0 where
  raw stored fast : Flag

pub data IndexRecordOption : Type 0 where
  basic with_freqs with_freqs_and_positions : IndexRecordOption

pub record JsonObjectOptions : Type 0 where
  pub is_stored : Bool
  pub is_fast : Bool
  pub tokenizer : String
  pub index_option : IndexRecordOption

pub data FieldType : Type 0 where
  text : List Flag → FieldType
  i64 : List Flag → FieldType
  json_object : JsonObjectOptions → FieldType

-- The fields in the order in which they were added; a handle is a place among them.
abbrev pub Schema : Type 0
Schema = List (String × FieldType)

pub record EngineSchema : Type 0 where
  pub schema : Schema
  pub field_id : ℕ
  pub field_partition_key : ℕ
  pub field_expires_at : ℕ
  pub field_doc : ℕ

-- `schema_builder.add_text_field` and the like: the handle, and the builder after it.
abbrev add_field : String → FieldType → Schema → ℕ × Schema
add_field name kind schema = (length schema, schema ++ (name, kind) ∷ [])

abbrev json_options : JsonObjectOptions
json_options = record {
  is_stored = true;
  is_fast = true;
  tokenizer = "default";
  index_option = with_freqs_and_positions;
}

unfoldable pub engine_schema : EngineSchema
engine_schema =
    let empty : Schema = [] in
    let (field_id, s1) = add_field "id" (text (raw ∷ stored ∷ [])) empty in
    let (field_partition_key, s2) = add_field "partition_key" (text (raw ∷ stored ∷ [])) s1 in
    let (field_expires_at, s3) = add_field "expires_at" (i64 (fast ∷ stored ∷ [])) s2 in
    let (field_writetime, s4) = add_field "writetime" (i64 (fast ∷ stored ∷ [])) s3 in
    let (field_doc, s5) = add_field "document" (json_object json_options) s4 in
    record {
      schema = s5;
      field_id = field_id;
      field_partition_key = field_partition_key;
      field_expires_at = field_expires_at;
      field_doc = field_doc;
    }

abbrev pub writer_buffer_size : ℕ
writer_buffer_size = 50000000

-- The file system, and the index that is kept on it.
pub record Storage (tantivy : Tantivy) : Type 1 where
  pub Disk : Type 0
  pub Directory : Type 0
  -- `std::fs::create_dir_all`, `MmapDirectory::open`, `Index::open_or_create`
  pub create_dir_all : String → Disk → Option Disk
  pub open_directory : String → Disk → Option Directory
  pub open_or_create : Directory → Schema → Option tantivy.Index
  -- `index.writer`, and the reader that is built from the index, at its first searcher
  pub index_writer : ℕ → tantivy.Index → Option tantivy.Index
  pub index_reader : tantivy.Index → Option tantivy.Snapshot
  -- what a process that writes to an index leaves behind when it ends without a commit
  pub left_behind : tantivy.Index → Disk

-- The operators `?` of `new`, in order.
pub data NewError : Type 0 where
  no_index_directory no_directory no_index no_writer no_reader : NewError

pub data Opened (tantivy : Tantivy) : Type 0 where
  opened : Engine tantivy → Opened tantivy
  unopened : NewError → Opened tantivy

abbrev pub or_error {ℓ} :
    {A : Type ℓ} {t : Tantivy} → Option A → NewError → (A → Opened t) → Opened t
or_error none e k = unopened e
or_error (some a) e k = k a

module _ (tantivy : Tantivy) (storage : Storage tantivy) where
  open storage use {
    Disk, create_dir_all, open_directory, open_or_create, index_writer, index_reader,
  }

  unfoldable pub new_engine : String → Disk → Opened tantivy
  unfolding engine_schema
  new_engine path disk = or_error (create_dir_all path disk) no_index_directory λ disk'.
      or_error (open_directory path disk') no_directory λ directory.
        or_error (open_or_create directory engine_schema.schema) no_index λ index.
          or_error (index_writer writer_buffer_size index) no_writer λ writer.
            or_error (index_reader index) no_reader λ reader. opened (record {
              index = writer;
              snapshot = reader;
              uncommitted_docs = [];
              current_generation = 0;
            })
