-- ===== src/Json/Tests.antt =====
-- Examples: documents and collection deltas, with structural equality of values and a parser of three texts.
use tantylla.Base.{
  ◌≡◌, refl, inl, inr, Bool-cases, String, Bool, true, false, not, ◌&&◌, ◌||◌, none, some, [], ◌∷◌,
  ◌==◌, eq_iff, if◌then◌else◌, arith,
}
use native.Mathlib.Decide.{ℕ_discrete}
use tantylla.Indexer.{CollectionDelta}
use tantylla.Json.Value.{unsigned, Value, string, number, array, object, nil, cons, end, field}
use tantylla.Json.Deltas.{JsonOps, contains_value, current_elements, apply_delta, listed_values}
use tantylla.Json.DeltaLaws.{IsEquality, has-apply_delta}

String-discrete : Discrete String
String-discrete s t = elim (Bool-cases (s == t)) [
  | inl e ↦ yes ((eq_iff s t).0 e)
  | inr e ↦ no (λ same. cc ((eq_iff s t).1 same, e))
]

Value-discrete : Discrete Value
Value-discrete = hlevel (ℕ_discrete, String-discrete)

pub is_yes : {P : Type 0} → Dec P → Bool
is_yes (yes p) = true
is_yes (no p) = false

pub value_eq : Value → Value → Bool
value_eq a b = is_yes (Value-discrete a b)

value_eq_iff : (a b : Value) → ((value_eq a b ≡ true) → (a ≡ b)) × ((a ≡ b) → (value_eq a b ≡ true))
unfolding value_eq is_yes
value_eq_iff a b = by_dec (Value-discrete a b)
  where
    by_dec : (d : Dec (a ≡ b)) → ((is_yes d ≡ true) → (a ≡ b)) × ((a ≡ b) → (is_yes d ≡ true))
    by_dec (yes p) = ((λ _. p), (λ _. refl))
    by_dec (no n) = ((λ e. cc), (λ e. absurd (n e)))

abbrev pub small_json : JsonOps
small_json = record {
  value_eq = value_eq;
  parse_value =
      λ text. if text == "{x}" then some (object (field "x" (number (unsigned 1)) end)) else none;
  parse_values = λ text.
      if text == "[a]"
      then some (string "a" ∷ [])
      else if text == "[b,c]"
      then some (string "b" ∷ string "c" ∷ [])
      else none;
}

pub small_json-IsEquality : IsEquality small_json
small_json-IsEquality = record {
  same = λ a. (value_eq_iff a a).1 refl;
  swap = λ a b. ground (arith, value_eq_iff a b, value_eq_iff b a);
  via = λ a b c h. ground (arith, value_eq_iff a b, value_eq_iff a c, value_eq_iff b c);
}

abbrev tags : Value
tags = array (cons (string "a") (cons (string "b") nil))

-- `tags = tags - {'a'} + {'b', 'c'}`
abbrev change : CollectionDelta
change = record {
  column = "tags";
  tombstoned = false;
  added_elements_json = "[b,c]";
  deleted_elements_json = "[a]";
}

has-apply_delta_example :
    contains_value small_json
      (string "a")
      (current_elements small_json (apply_delta small_json change tags))
    ≡ ((contains_value small_json (string "a") (current_elements small_json tags) && not false)
        && not (contains_value small_json (string "a") (listed_values small_json "[a]")))
      || contains_value small_json (string "a") (listed_values small_json "[b,c]")
has-apply_delta_example = has-apply_delta small_json small_json-IsEquality (string "a") tags change
