-- ===== src/Json/DeltaLaws.antt =====
-- Collections before and after `apply_collection_deltas`.
use tantylla.Base.{
  String, Bool, true, false, not, ◌&&◌, ◌||◌, Option, some, List, [], ◌∷◌, ◌++◌, ◌==◌, eq_iff,
  if◌then◌else◌, ◌≡◌, refl, ap, ◌∙◌, arith, Bool-cases, inl, inr,
}
use tantylla.Indexer.{CollectionDelta}
use tantylla.Json.Value.{
  Value, or_default, array, Fields, nil, get, entry, get-entry, items_to_list-of_list,
}
use tantylla.Json.Deltas.{
  JsonOps, contains_value, current_elements, remove_elements, add_elements, listed_values,
  apply_delta, apply_deltas,
}

get-entry_column :
    (k column : String) (f : Value → Value) (obj : Fields)
    → get k (entry column (array nil) f obj)
      ≡ (if column == k then some (f (or_default (array nil) (get k obj))) else get k obj)
get-entry_column k column f obj =
    ground (arith, get-entry column k (array nil) f obj, eq_iff column k)

-- `==` on values is an equivalence relation: `serde_json::Value` is `Eq`.
pub record IsEquality (json : JsonOps) : Type 0 where
  pub same : (a : Value) → json.value_eq a a ≡ true
  pub swap : (a b : Value) → json.value_eq a b ≡ json.value_eq b a
  pub via : (a b c : Value) → json.value_eq a b ≡ true → json.value_eq a c ≡ json.value_eq b c

module _ (json : JsonOps) (laws : IsEquality json) where
  open json use {value_eq}

  abbrev has : Value → List Value → Bool
  has = contains_value json

  has-append : (v : Value) (xs ys : List Value) → has v (xs ++ ys) ≡ has v xs || has v ys
  unfolding contains_value
  has-append v [] ys = refl
  has-append v (x ∷ xs) ys = ground (arith, has-append v xs ys)

  -- Equal values are contained alike.
  has_congr : (a b : Value) (xs : List Value) → value_eq a b ≡ true → has a xs ≡ has b xs
  unfolding contains_value
  has_congr a b [] h = refl
  has_congr a b (x ∷ xs) h =
      ground (arith, laws.via a b x h, laws.swap x a, laws.swap x b, has_congr a b xs h)

  has-remove_elements :
      (v : Value) (deleted xs : List Value)
      → has v (remove_elements json deleted xs) ≡ has v xs && not (has v deleted)
  unfolding contains_value remove_elements
  has-remove_elements v deleted [] = refl
  has-remove_elements v deleted (x ∷ xs) =
      ground (arith, has-remove_elements v deleted xs, has_congr x v deleted)

  -- One turn of the loop that adds.
  abbrev added_one : Value → List Value → List Value
  added_one x xs = if has x xs then xs else xs ++ x ∷ []

  has-one : (v x : Value) → has v (x ∷ []) ≡ value_eq x v
  unfolding contains_value
  has-one v x = ground arith

  has-added_one :
      (v x : Value) (xs : List Value) → has v (added_one x xs) ≡ has v xs || value_eq x v
  has-added_one v x xs = elim (Bool-cases (has x xs)) [
    | inl e ↦ rw e (ground (arith, has_congr x v xs))
    | inr e ↦ rw e (ground (arith, has-append v xs (x ∷ []), has-one v x))
  ]

  has-add_elements :
      (v : Value) (added xs : List Value)
      → has v (add_elements json added xs) ≡ has v xs || has v added
  unfolding add_elements contains_value
  has-add_elements v [] xs = ground arith
  has-add_elements v (x ∷ added) xs =
      has-add_elements v added (added_one x xs) ∙ ground (arith, has-added_one v x xs)

  -- No two elements are equal.
  abbrev pub NoDuplicates : List Value → Type 0
  NoDuplicates [] = Unit
  NoDuplicates (x ∷ xs) = (has x xs ≡ false) × NoDuplicates xs

  NoDuplicates-push :
      (x : Value) (xs : List Value)
      → has x xs ≡ false
      → NoDuplicates xs
      → NoDuplicates (xs ++ x ∷ [])
  unfolding contains_value
  NoDuplicates-push x [] h n = (refl, tt)
  NoDuplicates-push x (y ∷ ys) h n = (
    has-append y ys (x ∷ []) ∙ ground (arith, laws.swap x y),
    NoDuplicates-push x ys (ground arith) n.1,
  )

  remove_elements-NoDuplicates :
      (deleted xs : List Value) → NoDuplicates xs → NoDuplicates (remove_elements json deleted xs)
  unfolding remove_elements
  remove_elements-NoDuplicates deleted [] n = tt
  remove_elements-NoDuplicates deleted (x ∷ xs) n =
      ground (arith, remove_elements-NoDuplicates deleted xs n.1, has-remove_elements x deleted xs)

  add_elements-NoDuplicates :
      (added xs : List Value) → NoDuplicates xs → NoDuplicates (add_elements json added xs)
  unfolding add_elements
  add_elements-NoDuplicates [] xs n = n
  add_elements-NoDuplicates (x ∷ added) xs n = elim (Bool-cases (has x xs)) [
    | inl e ↦ rw e (add_elements-NoDuplicates added xs n)
    | inr e ↦ rw e (add_elements-NoDuplicates added (xs ++ x ∷ []) (NoDuplicates-push x xs e n))
  ]

  abbrev cleared : CollectionDelta → Value → List Value
  cleared d existing = if d.tombstoned then [] else current_elements json existing

  elements-apply_delta :
      (existing : Value) (d : CollectionDelta)
      → current_elements json (apply_delta json d existing)
        ≡ add_elements json
            (listed_values json d.added_elements_json)
            (remove_elements json (listed_values json d.deleted_elements_json) (cleared d existing))
  unfolding apply_delta
  elements-apply_delta existing d = items_to_list-of_list _

  has-cleared :
      (v existing : Value) (d : CollectionDelta)
      → has v (cleared d existing) ≡ has v (current_elements json existing) && not d.tombstoned
  unfolding contains_value
  has-cleared v existing d = ground arith

  -- A value is in the column after a delta when it was there, the column was not tombstoned and the value
  -- is not among the deleted elements, or when it is among the added ones. A text that is no JSON array, such as
  -- the object of a map, names no elements, and a value that is no array, such as a map, has none.
  pub has-apply_delta :
      (v existing : Value) (d : CollectionDelta)
      → has v (current_elements json (apply_delta json d existing))
        ≡ ((has v (current_elements json existing) && not d.tombstoned)
            && not (has v (listed_values json d.deleted_elements_json)))
          || has v (listed_values json d.added_elements_json)
  has-apply_delta v existing d = ground (
    arith,
    ap (has v) (elements-apply_delta existing d),
    has-add_elements v (listed_values json d.added_elements_json)
        (remove_elements json (listed_values json d.deleted_elements_json) (cleared d existing)),
    has-remove_elements v (listed_values json d.deleted_elements_json) (cleared d existing),
    has-cleared v existing d,
  )

  -- A delta keeps a column free of duplicates, whatever lists it adds and deletes.
  pub apply_delta-NoDuplicates :
      (existing : Value) (d : CollectionDelta)
      → NoDuplicates (current_elements json existing)
      → NoDuplicates (current_elements json (apply_delta json d existing))
  apply_delta-NoDuplicates existing d n = rw (elements-apply_delta existing d) (
      add_elements-NoDuplicates (listed_values json d.added_elements_json) _ (
        remove_elements-NoDuplicates (listed_values json d.deleted_elements_json) _
          (cleared-NoDuplicates d.tombstoned)))
    where
      cleared-NoDuplicates :
          (b : Bool) → NoDuplicates (if b then [] else current_elements json existing)
      cleared-NoDuplicates true = tt
      cleared-NoDuplicates false = n

module _ (json : JsonOps) where
  -- The value of one column after a list of deltas: only those that name the column count.
  abbrev pub column_state : String → List CollectionDelta → Option Value → Option Value
  column_state k [] o = o
  column_state k (d ∷ ds) o =
      column_state k ds
        (if d.column == k then some (apply_delta json d (or_default (array nil) o)) else o)

  -- After a list of deltas, each key of the object has what the deltas of its own column, in order, make
  -- of its value; the other keys are as they were.
  pub get-apply_deltas :
      (k : String) (ds : List CollectionDelta) (obj : Fields)
      → get k (apply_deltas json ds obj) ≡ column_state k ds (get k obj)
  unfolding apply_deltas
  get-apply_deltas k [] obj = refl
  get-apply_deltas k (d ∷ ds) obj =
      get-apply_deltas k ds (entry d.column (array nil) (apply_delta json d) obj)
      ∙ ap (column_state k ds) (get-entry_column k d.column (apply_delta json d) obj)
