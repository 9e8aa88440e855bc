-- ===== src/Json/Deltas.antt =====
-- `apply_collection_deltas`. Equality of values and the parser of a list of values are parameters.
use tantylla.Base.{
  String, Bool, not, Option, none, some, List, [], ◌∷◌, ◌++◌, any, keep, ◌==◌, if◌then◌else◌,
}
use tantylla.Indexer.{CollectionDelta}
use tantylla.Json.Value.{Value, array, object, Fields, nil, entry, items_to_list, items_of_list}

-- `serde_json`, as far as the node uses it on collections.
pub record JsonOps : Type 0 where
  -- `a == b` on values
  pub value_eq : Value → Value → Bool
  -- `serde_json::from_str::<Value>`, `none` for an error
  pub parse_value : String → Option Value
  -- `serde_json::from_str::<Vec<Value>>`
  pub parse_values : String → Option (List Value)

module _ (json : JsonOps) where
  open json use {value_eq, parse_values}

  -- elements.contains(&elem)
  unfoldable pub contains_value : Value → List Value → Bool
  contains_value v elements = any (λ x. value_eq x v) elements

  -- `existing.as_array()`, or an empty list where it is no array.
  unfoldable pub current_elements : Value → List Value
  unfolding items_to_list
  current_elements (array vs) = items_to_list vs
  current_elements _ = []

  -- elements.retain(|elem| !deleted.contains(elem))
  unfoldable pub remove_elements : List Value → List Value → List Value
  unfolding contains_value
  remove_elements deleted elements = keep (λ x. not (contains_value x deleted)) elements

  -- `for elem in added { if !elements.contains(&elem) { elements.push(elem); } }`
  unfoldable pub add_elements : List Value → List Value → List Value
  unfolding contains_value
  add_elements [] elements = elements
  add_elements (x ∷ added) elements =
      add_elements added (if contains_value x elements then elements else elements ++ x ∷ [])

  -- The values of a text that is not empty and parses; the others name none.
  unfoldable pub listed_values : String → List Value
  listed_values text =
      if text == "" then [] else (elim (parse_values text) [ none ↦ [] | some vs ↦ vs ])

  -- One turn of the loop, on the value of the delta's column.
  unfoldable pub apply_delta : CollectionDelta → Value → Value
  unfolding current_elements remove_elements add_elements listed_values items_of_list
  apply_delta d existing =
      let cleared = if d.tombstoned then [] else current_elements existing in
      let kept = remove_elements (listed_values d.deleted_elements_json) cleared in
      array (items_of_list (add_elements (listed_values d.added_elements_json) kept))

  unfoldable pub apply_deltas : List CollectionDelta → Fields → Fields
  unfolding apply_delta
  apply_deltas [] obj = obj
  apply_deltas (d ∷ ds) obj = apply_deltas ds (entry d.column (array nil) (apply_delta d) obj)

  -- A document that is no object is left alone.
  unfoldable pub apply_collection_deltas : Value → List CollectionDelta → Value
  unfolding apply_deltas
  apply_collection_deltas (object obj) deltas = object (apply_deltas deltas obj)
  apply_collection_deltas doc deltas = doc
