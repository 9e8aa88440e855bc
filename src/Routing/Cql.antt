-- ===== src/Routing/Cql.antt =====
-- CQL values as JSON and as key texts: `cql_to_json` and `cql_value_to_key_string` of
-- rust/ingestor/src/router/utils.rs. The texts of uuids, floats, addresses and the like are made by
-- other crates, which are a parameter.
use tantylla.Base.{
  ℕ, ◌≡◌, refl, ap, ◌∙◌, String, Bool, Option, none, some, List, ◌==◌, if◌then◌else◌,
}
use tantylla.Base.Int.{ℤ}
use tantylla.Json.Value.{
  Value, null, bool, number, string, array, object, Items, nil, cons, Fields, end, get, entry,
  get-entry,
}
use tantylla.Engine.Doc.{number_of_i64}

-- `scylla::value::CqlValue`. Floats are their bits, uuids and addresses their numbers; `exotic` stands
-- for the kinds that the code does not name.
mutual
  pub data CqlValue : Type 0 where
    ascii text : String → CqlValue
    boolean : Bool → CqlValue
    int big_int timestamp : ℤ → CqlValue
    decimal double float uuid timeuuid inet exotic : ℕ → CqlValue
    blob : List ℕ → CqlValue
    list set : CqlValues → CqlValue
    map_of : CqlPairs → CqlValue
    user_defined_type : CqlMembers → CqlValue
    tuple : CqlOptions → CqlValue

  pub data CqlPairs : Type 0 where
    no_pairs : CqlPairs
    pair : CqlValue → CqlValue → CqlPairs → CqlPairs

  pub data CqlMembers : Type 0 where
    no_members : CqlMembers
    member : String → CqlValue → CqlMembers → CqlMembers
    unset : String → CqlMembers → CqlMembers

  pub data CqlOptions : Type 0 where
    no_options : CqlOptions
    given : CqlValue → CqlOptions → CqlOptions
    missing : CqlOptions → CqlOptions

  pub data CqlValues : Type 0 where
    no_values : CqlValues
    value : CqlValue → CqlValues → CqlValues

-- `to_string` of the kinds, `{:?}`, base64 and `serde_json::Number::from_f64`.
pub record Formats : Type 0 where
  pub int_text : ℤ → String
  pub bool_text : Bool → String
  pub uuid_text : ℕ → String
  pub decimal_text : ℕ → String
  pub float_text : ℕ → String
  pub double_text : ℕ → String
  pub inet_text : ℕ → String
  pub base64 : List ℕ → String
  pub debug : CqlValue → String
  pub number_of_double : ℕ → Option Value
  pub number_of_float : ℕ → Option Value

abbrev or_null : Option Value → Value
or_null none = null
or_null (some v) = v

module _ (formats : Formats) where
  open formats use {
    int_text, bool_text, uuid_text, decimal_text, float_text, double_text, inet_text, base64, debug,
    number_of_double, number_of_float,
  }

  unfoldable pub cql_value_to_key_string : CqlValue → String
  cql_value_to_key_string (ascii s) = s
  cql_value_to_key_string (text s) = s
  cql_value_to_key_string (uuid u) = uuid_text u
  cql_value_to_key_string (timeuuid t) = uuid_text t
  cql_value_to_key_string (int i) = int_text i
  cql_value_to_key_string (big_int i) = int_text i
  cql_value_to_key_string (boolean b) = bool_text b
  cql_value_to_key_string (float f) = float_text f
  cql_value_to_key_string (double f) = double_text f
  cql_value_to_key_string (blob b) = base64 b
  cql_value_to_key_string (inet ip) = inet_text ip
  cql_value_to_key_string v = debug v

  -- The key of a map's entry: a text, or the debug form.
  unfoldable pub map_key : CqlValue → String
  map_key (text s) = s
  map_key (ascii s) = s
  map_key k = debug k

  unfoldable mutual
    unfolding map_key entry

    pub cql_to_json : CqlValue → Value
    cql_to_json (ascii s) = string s
    cql_to_json (text s) = string s
    cql_to_json (boolean b) = bool b
    cql_to_json (int i) = number (number_of_i64 i)
    cql_to_json (big_int i) = number (number_of_i64 i)
    cql_to_json (decimal d) = string (decimal_text d)
    cql_to_json (double f) = or_null (number_of_double f)
    cql_to_json (float f) = or_null (number_of_float f)
    cql_to_json (uuid u) = string (uuid_text u)
    cql_to_json (timeuuid t) = string (uuid_text t)
    cql_to_json (timestamp ts) = number (number_of_i64 ts)
    cql_to_json (inet ip) = string (inet_text ip)
    cql_to_json (blob b) = string (base64 b)
    cql_to_json (list vec) = array (values_to_json vec)
    cql_to_json (set vec) = array (values_to_json vec)
    cql_to_json (map_of pairs) = object (pairs_to_json pairs end)
    cql_to_json (user_defined_type fields) = object (members_to_json fields end)
    cql_to_json (tuple vec) = array (options_to_json vec)
    cql_to_json (exotic n) = string (debug (exotic n))

    pub values_to_json : CqlValues → Items
    values_to_json no_values = nil
    values_to_json (value v vs) = cons (cql_to_json v) (values_to_json vs)

    pub options_to_json : CqlOptions → Items
    options_to_json no_options = nil
    options_to_json (given v vs) = cons (cql_to_json v) (options_to_json vs)
    options_to_json (missing vs) = cons null (options_to_json vs)

    -- `map.insert`, one entry after the other.
    pub pairs_to_json : CqlPairs → Fields → Fields
    pairs_to_json no_pairs m = m
    pairs_to_json (pair k v pairs) m =
        pairs_to_json pairs (entry (map_key k) null (λ _. cql_to_json v) m)

    pub members_to_json : CqlMembers → Fields → Fields
    members_to_json no_members m = m
    members_to_json (member name v fields) m =
        members_to_json fields (entry name null (λ _. cql_to_json v) m)
    members_to_json (unset name fields) m = members_to_json fields (entry name null (λ _. null) m)

  -- The value of the last pair of a key, or what was there before.
  abbrev pub last_value : String → CqlPairs → Option Value → Option Value
  last_value k no_pairs o = o
  last_value k (pair j v pairs) o =
      last_value k pairs (if map_key j == k then some (cql_to_json v) else o)

  -- Under every key the object of a CQL map holds the JSON of the last pair whose key has that text,
  -- and no other key is there.
  pub get-pairs_to_json :
      (k : String) (pairs : CqlPairs) (m : Fields)
      → get k (pairs_to_json pairs m) ≡ last_value k pairs (get k m)
  unfolding cql_to_json
  get-pairs_to_json k no_pairs m = refl
  get-pairs_to_json k (pair j v pairs) m =
      get-pairs_to_json k pairs (entry (map_key j) null (λ _. cql_to_json v) m)
      ∙ ap (last_value k pairs) (get-entry (map_key j) k null (λ _. cql_to_json v) m)
