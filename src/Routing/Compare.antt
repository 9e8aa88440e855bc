-- ===== src/Routing/Compare.antt =====
-- `compare_cql_values` of rust/ingestor/src/router/utils.rs. The floats of the machine are parameters.
use Prim.Native.Char.{code}
use Prim.Native.String
use tantylla.Base.{
  ◌+◌, Ordering, String, Bool, ◌&&◌, Option, none, some, List, [], ◌∷◌, any, true, false, eqb, leb,
  if◌then◌else◌,
}
use tantylla.Base.Numbers.{parse_i64}
use tantylla.Base.Int.{cmp_ℤ}

-- `parse::<f32>`, `f32::total_cmp` and the same of f64.
pub record Floats : Type 1 where
  pub F32 : Type 0
  pub F64 : Type 0
  pub parse_f32 : String → Option F32
  pub parse_f64 : String → Option F64
  pub total_cmp_f32 : F32 → F32 → Ordering
  pub total_cmp_f64 : F64 → F64 → Ordering

pub data CqlOrder : Type 0 where
  integers floats doubles texts : CqlOrder

-- The lower case of the first text is the second, which is in ASCII. No other character than A to Z has
-- a letter of the names below as its lower case.
unfoldable pub is_lowercase_of : String → String → Bool
is_lowercase_of String.[] String.[] = true
is_lowercase_of (String.◌∷◌ c s) (String.◌∷◌ d t) =
    let rest = is_lowercase_of s t in
    let n = if leb b'A' (code c) && leb (code c) b'Z' then code c + 32 else code c in
    eqb n (code d) && rest
is_lowercase_of _ _ = false

abbrev is_one_of : String → List String → Bool
is_one_of ty names = any (is_lowercase_of ty) names

-- The arms of the match on the type's name, in lower case.
unfoldable pub cql_order : String → CqlOrder
unfolding is_lowercase_of
cql_order ty =
    if is_one_of ty
      ("int" ∷ "varint" ∷ "smallint" ∷ "tinyint" ∷ "bigint" ∷ "counter" ∷ "timestamp" ∷ [])
    then integers
    else if is_lowercase_of ty "float"
    then floats
    else if is_lowercase_of ty "double"
    then doubles
    else texts

-- Two texts that both parse are compared as values, the others as texts.
unfoldable pub compare_parsed {ℓ} :
    {A : Type ℓ} → (String → Option A) → (A → A → Ordering) → String → String → Ordering
compare_parsed parse cmp a b = elim (parse a) [
  | none ↦ String.compare a b
  | some va ↦ elim (parse b) [ none ↦ String.compare a b | some vb ↦ cmp va vb ]
]

abbrev pub compare_by : Floats → CqlOrder → String → String → Ordering
compare_by fl integers = compare_parsed parse_i64 cmp_ℤ
compare_by fl floats = compare_parsed fl.parse_f32 fl.total_cmp_f32
compare_by fl doubles = compare_parsed fl.parse_f64 fl.total_cmp_f64
compare_by fl texts = String.compare

unfoldable pub compare_cql_values : Floats → String → String → String → Ordering
unfolding cql_order
compare_cql_values fl a b ty = compare_by fl (cql_order ty) a b
