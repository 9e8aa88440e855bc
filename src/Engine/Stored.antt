-- ===== src/Engine/Stored.antt =====
-- What Tantivy documents of its index, as far as the engine relies on it, and the round trip of a
-- document through the index.
use tantylla.Base.{
  ℕ, ◌+◌, ◌*◌, ◌≤◌, ◌≡◌, min, String, Bool, not, Option, none, some, List, [], ◌∷◌, ◌++◌, keep,
  false, arith, ◌==◌,
}
use tantylla.Base.Int.{ℤ, pos, negsuc}
use tantylla.Json.Value.{Value, string, array, object, Items, nil, cons, Fields, end, field, get}
use tantylla.Engine.Doc.{Doc, i64_max, expiry, full_doc_wrapper, decode}
use tantylla.Engine.Index.{Tantivy, Term, id_term, partition_key_term}

-- The JSON form of a stored document holds the values of each field in an array.
unfoldable pub stored_fields : Fields → Fields
stored_fields end = end
stored_fields (field k v m) = field k (array (cons v nil)) (stored_fields m)

unfoldable pub stored_form : Value → Value
unfolding stored_fields
stored_form (object m) = object (stored_fields m)
stored_form v = v

-- A value that a JSON field gives back as it took it: no text in it is one that Tantivy reads as a date,
-- which it would write in another form.
abbrev mutual
  pub IsKept : (String → Bool) → Value → Type 0
  IsKept is_date (string s) = is_date s ≡ false
  IsKept is_date (array vs) = AreKept is_date vs
  IsKept is_date (object m) = HasKept is_date m
  IsKept is_date _ = Unit

  AreKept : (String → Bool) → Items → Type 0
  AreKept is_date nil = Unit
  AreKept is_date (cons v vs) = IsKept is_date v × AreKept is_date vs

  HasKept : (String → Bool) → Fields → Type 0
  HasKept is_date end = Unit
  HasKept is_date (field k v m) = IsKept is_date v × HasKept is_date m

-- A body that is stored as it is: an object, since the elements of an array are values of their own.
abbrev pub IsKeptBody : (String → Bool) → Value → Type 0
IsKeptBody is_date (object m) = IsKept is_date (object m)
IsKeptBody is_date _ = ⊥

pub record Documented (t : Tantivy) : Type 0 where
  -- the documents that the next commit makes visible, and those of the last one
  pub pending : t.Index → List t.Document
  pub visible : t.Index → List t.Document
  pub matches : Term → t.Document → Bool
  -- a deletion concerns all the documents that were added before it
  pub pending-delete_term :
      (x : Term) (ix : t.Index)
      → pending (t.delete_term x ix) ≡ keep (λ d. not (matches x d)) (pending ix)
  pub pending-add_document :
      (d : t.Document) (ix ix' : t.Index)
      → t.add_document d ix ≡ some ix'
      → pending ix' ≡ pending ix ++ d ∷ []
  pub visible-commit : (ix ix' : t.Index) → t.commit ix ≡ some ix' → visible ix' ≡ pending ix
  pub search-reload :
      (x : Term) (ix : t.Index) → t.search x (t.reload ix) ≡ keep (matches x) (visible ix)
  -- a text field with the raw tokenizer is matched as a whole
  pub matches_id :
      (doc : Doc) (d : t.Document) (id : String)
      → t.parse_json (full_doc_wrapper doc) ≡ some d
      → matches (id_term id) d ≡ (doc.id == id)
  pub matches_partition_key :
      (doc : Doc) (d : t.Document) (pk : String)
      → t.parse_json (full_doc_wrapper doc) ≡ some d
      → matches (partition_key_term pk) d ≡ (doc.partition_key == pk)
  -- the texts in a JSON field that are read as dates
  pub is_date : String → Bool
  pub to_json-parse_json :
      (doc : Doc) (d : t.Document)
      → IsKeptBody is_date doc.doc
      → t.parse_json (full_doc_wrapper doc) ≡ some d
      → t.to_json d ≡ some (stored_form (full_doc_wrapper doc))

-- The values of an i64.
abbrev pub InI64 : ℤ → Type 0
InI64 (pos n) = n ≤ i64_max
InI64 (negsuc n) = n ≤ i64_max

-- A document whose expiry is an i64 is read back from its form in the index as it was stored, but for
-- the generation, which is 0.
pub decode-stored_form :
    (d : Doc)
    → InI64 d.expires_at
    → decode d.id (stored_form (full_doc_wrapper d)) ≡ record d { generation = 0 }
unfolding decode stored_form full_doc_wrapper get
decode-stored_form d h = ground arith

-- With a TTL that is not negative, the expiry is the writetime plus the TTL in microseconds, at most
-- the largest i64.
pub expiry_lem :
    (writetime : ℕ) (ttl : ℕ)
    → expiry writetime (some (pos ttl)) ≡ pos (min (writetime + ttl * 1000000) i64_max)
unfolding expiry
expiry_lem writetime ttl = ground arith

pub expiry-InI64 : (writetime : ℕ) (ttl : Option ℤ) → InI64 (expiry writetime ttl)
unfolding expiry
expiry-InI64 writetime none = omega arith
expiry-InI64 writetime (some ttl) = ground arith
