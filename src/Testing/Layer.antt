-- ===== src/Testing/Layer.antt =====
-- rust/common/src/tracing/layer.rs: the fields of spans, and the payload of a test event. A subscriber
-- hands the fields over one by one; the socket is left out.
use tantylla.Base.{
  ℕ, String, Bool, Option, none, some, List, [], ◌∷◌, ◌==◌, if◌then◌else◌, ◌≡◌, refl, ap, ◌∙◌,
  arith, eq_iff,
}
use tantylla.Base.Int.{ℤ}
use tantylla.Engine.Doc.{number_of_i64}
use tantylla.Json.Value.{
  Value, null, bool, number, string, object, unsigned, Fields, end, field, get, entry, get-entry,
  or_else,
}

-- The calls of a visitor; a float is its bits, and a debug value its text.
pub data Visit : Type 0 where
  record_i64 : (name : String) (value : ℤ) → Visit
  record_u64 record_f64 : (name : String) (value : ℕ) → Visit
  record_bool : (name : String) (value : Bool) → Visit
  record_str record_debug : (name value : String) → Visit

-- field.name()
unfoldable pub name_of : Visit → String
name_of (record_i64 name value) = name
name_of (record_u64 name value) = name
name_of (record_f64 name value) = name
name_of (record_bool name value) = name
name_of (record_str name value) = name
name_of (record_debug name value) = name

-- `serde_json::from_str` and `Value::from` of a float are parameters.
module _ (from_str : String → Option Value) (value_of_f64 : ℕ → Value) where
  abbrev or_text : String → Option Value → Value
  or_text s none = string s
  or_text s (some v) = v

  unfoldable pub value_of : Visit → Value
  value_of (record_i64 name value) = number (number_of_i64 value)
  value_of (record_u64 name value) = number (unsigned value)
  value_of (record_f64 name value) = value_of_f64 value
  value_of (record_bool name value) = bool value
  value_of (record_str name value) = string value
  value_of (record_debug name value) = or_text value (from_str value)

  -- `self.fields.insert(name, value)`, one call after the other
  unfoldable pub visit : List Visit → Fields → Fields
  unfolding name_of value_of
  visit [] fields = fields
  visit (v ∷ visits) fields = visit visits (entry (name_of v) null (λ _. value_of v) fields)

  -- The extension of a span, when it is new and when values are recorded later.
  unfoldable pub on_new_span : List Visit → Option Fields
  unfolding visit
  on_new_span attrs = some (visit attrs end)

  abbrev insert_fields : Fields → Fields → Fields
  insert_fields end fields = fields
  insert_fields (field k v more) fields = insert_fields more (entry k null (λ _. v) fields)

  abbrev or_no_fields : Option Fields → Fields
  or_no_fields none = end
  or_no_fields (some fields) = fields

  unfoldable on_record : List Visit → Option Fields → Option Fields
  unfolding visit
  on_record values extension = some (insert_fields (visit values end) (or_no_fields extension))

  -- `payload.entry(key).or_insert_with(|| value)`
  unfoldable add_missing : Fields → Fields → Fields
  add_missing end payload = payload
  add_missing (field k v more) payload = add_missing more (entry k v (λ old. old) payload)

  -- The spans of the event's scope, from the root.
  unfoldable add_spans : List (Option Fields) → Fields → Fields
  unfolding add_missing
  add_spans [] payload = payload
  add_spans (none ∷ spans) payload = add_spans spans payload
  add_spans (some fields ∷ spans) payload = add_spans spans (add_missing fields payload)

  -- The payload that is sent, if any.
  pub on_event : String → List Visit → List (Option Fields) → Option Value
  unfolding visit add_spans
  on_event target event spans =
      if target == "test_event" then some (object (add_spans spans (visit event end))) else none

  -- What an event records under a name: the last value.
  abbrev pub recorded : String → List Visit → Option Value → Option Value
  recorded k [] o = o
  recorded k (v ∷ visits) o = recorded k visits (if name_of v == k then some (value_of v) else o)

  -- What the spans have under a name: the value of the outermost one that has it.
  abbrev pub inherited : String → List (Option Fields) → Option Value
  inherited k [] = none
  inherited k (none ∷ spans) = inherited k spans
  inherited k (some fields ∷ spans) = or_else (get k fields) (inherited k spans)

  get-visit :
      (k : String) (visits : List Visit) (fields : Fields)
      → get k (visit visits fields) ≡ recorded k visits (get k fields)
  unfolding visit
  get-visit k [] fields = refl
  get-visit k (v ∷ visits) fields =
      get-visit k visits (entry (name_of v) null (λ _. value_of v) fields)
      ∙ ap (recorded k visits) (get-entry (name_of v) k null (λ _. value_of v) fields)

  get-add_missing :
      (k : String) (fields payload : Fields)
      → get k (add_missing fields payload) ≡ or_else (get k payload) (get k fields)
  unfolding add_missing get
  get-add_missing k end payload = by_cases (get k payload)
    where
      by_cases : (o : Option Value) → o ≡ or_else o none
      by_cases none = refl
      by_cases (some v) = refl
  get-add_missing k (field j v more) payload =
      get-add_missing k more (entry j v (λ old. old) payload)
      ∙ ground (arith, get-entry j k v (λ old. old) payload, eq_iff j k)

  get-add_spans :
      (k : String) (spans : List (Option Fields)) (payload : Fields)
      → get k (add_spans spans payload) ≡ or_else (get k payload) (inherited k spans)
  unfolding add_spans get
  get-add_spans k [] payload = get-add_missing k end payload
  get-add_spans k (none ∷ spans) payload = get-add_spans k spans payload
  get-add_spans k (some fields ∷ spans) payload =
      get-add_spans k spans (add_missing fields payload)
      ∙ ground (arith, get-add_missing k fields payload)

  -- A test event is sent with every field that it records, the last value under each name, and with the
  -- fields of its spans under the other names, of which the outermost span that has a name counts.
  pub get-on_event :
      (k : String) (event : List Visit) (spans : List (Option Fields))
      → (payload : Fields) × (on_event "test_event" event spans ≡ some (object payload))
        × (get k payload ≡ or_else (recorded k event none) (inherited k spans))
  unfolding on_event get
  get-on_event k event spans = (
    add_spans spans (visit event end),
    refl,
    get-add_spans k spans (visit event end)
        ∙ ap (λ o. or_else o (inherited k spans)) (get-visit k event end),
  )
