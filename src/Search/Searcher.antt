-- ===== src/Search/Searcher.antt =====
-- Tantivy's side of a search, and the result of one.
use tantylla.Base.{ℕ, String, Bool, Option, none, some, List}
use tantylla.Base.Int.{ℤ}
use tantylla.Json.Value.{Number, Value}
use tantylla.Indexer.{BoostField}
use tantylla.Engine.Index.{Tantivy}

pub record Searcher (tantivy : Tantivy) : Type 1 where
  pub F32 : Type 0
  pub Query : Type 0
  pub Address : Type 0
  -- Rust's `Display` of a float, `str::to_lowercase`, serde_json's texts of a value and of a number
  pub f32_text : F32 → String
  pub to_lowercase : String → String
  pub value_text : Value → Option String
  pub number_text : Number → String
  -- `QueryParser::parse_query`
  pub parse_query : String → Option Query
  -- `FuzzyTermQuery::new_prefix` and `new`, on a path below `document`, a token and a distance
  pub fuzzy_prefix : String → String → ℕ → Query
  pub fuzzy : String → String → ℕ → Query
  -- the query and an expiry after the time
  pub unexpired : ℤ → Query → Query
  pub count : Query → tantivy.Snapshot → Option ℕ
  -- `TopDocs::with_limit(limit).and_offset(offset)`
  pub top_docs : ℕ → ℕ → Query → tantivy.Snapshot → Option (List (F32 × Address))
  -- `DocSetCollector`
  pub doc_set : Query → tantivy.Snapshot → Option (List Address)
  -- `searcher.doc(address)`
  pub doc : Address → tantivy.Snapshot → Option tantivy.Document

-- A call that returns a value, an error, or panics.
pub data Ran {ℓ} (A : Type ℓ) : Type ℓ where
  done : A → Ran A
  failed panicked : Ran A

infixl 10 ◌>>=◌
abbrev pub ◌>>=◌ {ℓ κ} : {A : Type ℓ} {B : Type κ} → Ran A → (A → Ran B) → Ran B
done a >>= f = f a
failed >>= f = failed
panicked >>= f = panicked

-- The operator `?` on a result.
abbrev pub or_failed {ℓ} : {A : Type ℓ} → Option A → Ran A
or_failed none = failed
or_failed (some a) = done a

pub record SearchParams (F32 : Type 0) : Type 0 where
  pub query_str : String
  pub limit : ℕ
  pub offset : ℕ
  pub default_fields : List String
  pub facet_fields : List String
  pub boost_fields : List (BoostField F32)
  pub group_by_partition : Bool
