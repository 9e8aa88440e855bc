-- ===== src/Engine/Doc.antt =====
-- A document of the node: its expiry, and its form in the index.
use tantylla.Base.{ℕ, ◌+◌, ◌-◌, ◌*◌, ◌^◌, min, String, Option, none, some, leb, if◌then◌else◌}
use tantylla.Base.Int.{ℤ, pos, negsuc}
use tantylla.Json.Value.{
  Number, unsigned, negative, Value, number, string, array, object, cons, end, field, get,
}

pub record Doc : Type 0 where
  pub id : String
  pub partition_key : String
  pub doc : Value
  pub expires_at : ℤ
  pub writetime : ℕ
  pub generation : ℕ

abbrev pub i64_max : ℕ
i64_max = 2 ^ 63 - 1

abbrev pub u64_max : ℕ
u64_max = 2 ^ 64 - 1

-- `ttl.saturating_mul(1_000_000).max(0) as u64`
unfoldable pub ttl_micros : ℤ → ℕ
ttl_micros (pos ttl) = min (ttl * 1000000) i64_max
ttl_micros (negsuc ttl) = 0

-- The expiry of an upsert: a saturating sum in u64, cut to i64; without a TTL, never.
unfoldable pub expiry : ℕ → Option ℤ → ℤ
unfolding ttl_micros
expiry writetime none = pos i64_max
expiry writetime (some ttl) =
    let expires_at = min (writetime + ttl_micros ttl) u64_max in
    if leb expires_at i64_max then pos expires_at else pos i64_max

abbrev pub number_of_i64 : ℤ → Number
number_of_i64 (pos n) = unsigned n
number_of_i64 (negsuc n) = negative n

-- The JSON wrapper that is parsed into a document of the index.
unfoldable pub full_doc_wrapper : Doc → Value
full_doc_wrapper d = object (
    field "id" (string d.id) (
      field "partition_key" (string d.partition_key) (
        field "expires_at" (number (number_of_i64 d.expires_at))
          (field "document" d.doc (field "writetime" (number (unsigned d.writetime)) end)))))

-- value.get(key)
unfoldable pub value_get : String → Value → Option Value
unfolding get
value_get k (object m) = get k m
value_get k _ = none

-- `.and_then(|v| v.as_array()).and_then(|a| a.first())`
unfoldable pub first_value : Option Value → Option Value
first_value (some (array (cons v vs))) = some v
first_value _ = none

-- `.and_then(|v| v.as_u64())`, `as_i64`, `as_str`.
unfoldable pub as_u64 : Option Value → Option ℕ
as_u64 (some (number (unsigned n))) = some n
as_u64 _ = none

unfoldable pub as_i64 : Option Value → Option ℤ
as_i64 (some (number (unsigned n))) = if leb n i64_max then some (pos n) else none
as_i64 (some (number (negative n))) = if leb n i64_max then some (negsuc n) else none
as_i64 _ = none

unfoldable pub as_str : Option Value → Option String
as_str (some (string s)) = some s
as_str _ = none

abbrev pub unwrap_or {ℓ} : {A : Type ℓ} → A → Option A → A
unwrap_or a none = a
unwrap_or a (some x) = x

-- The body: the first element of the stored array, or the value as it is.
unfoldable pub doc_body : Option Value → Value
doc_body (some (array (cons v vs))) = v
doc_body (some other) = other
doc_body none = object end

-- What `find_cached_or_indexed` reads back from the JSON form of a stored document.
unfoldable pub decode : String → Value → Doc
unfolding value_get first_value as_u64 as_i64 as_str doc_body
decode id full = record {
  id = id;
  partition_key = unwrap_or "" (as_str (first_value (value_get "partition_key" full)));
  doc = doc_body (value_get "document" full);
  expires_at = unwrap_or (pos i64_max) (as_i64 (first_value (value_get "expires_at" full)));
  writetime = unwrap_or 0 (as_u64 (first_value (value_get "writetime" full)));
  generation = 0;
}
