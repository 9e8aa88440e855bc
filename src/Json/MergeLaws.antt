-- ===== src/Json/MergeLaws.antt =====
-- `merge_json` key by key, and applied again.
use tantylla.Base.{String, Option, none, some, eq_iff, eq_refl, ◌≡◌, refl, ap, ◌∙◌, arith}
use tantylla.Json.Value.{
  Value, null, object, Fields, end, field, get, entry, or_default, Distinct, get-entry,
  entry-Distinct, entry_fixed,
}
use tantylla.Json.Merge.{merge_json, merge_fields}

-- What stands under a key after a merge, of what stood under it and of what the patch says.
abbrev pub patched : Option Value → Option Value → Option Value
patched old none = old
patched old (some v) = some (merge_json (or_default null old) v)

get_absent : (k : String) (a b : Fields) → get k b ≡ none → get k (merge_fields a b) ≡ get k a
unfolding merge_json get
get_absent k a end h = refl
get_absent k a (field j v b) h = ground (
  arith,
  get_absent k (entry j null (λ x. merge_json x v) a) b,
  get-entry j k null (λ x. merge_json x v) a,
)

-- Under every key a merged object holds what the patch, whose keys are distinct, makes of the old value:
-- the merge of the two where the patch names the key, and the old value where it does not.
pub get-merge_fields :
    (k : String) (a b : Fields)
    → Distinct b
    → get k (merge_fields a b) ≡ patched (get k a) (get k b)
unfolding merge_json get
get-merge_fields k a end d = refl
get-merge_fields k a (field j v b) d = ground (
  arith,
  get-merge_fields k (entry j null (λ x. merge_json x v) a) b d.1,
  get-entry j k null (λ x. merge_json x v) a,
  eq_iff j k,
)

-- A merge keeps the keys of an object distinct.
pub merge_fields-Distinct : (a b : Fields) → Distinct a → Distinct (merge_fields a b)
unfolding merge_json
merge_fields-Distinct a end d = d
merge_fields-Distinct a (field j v b) d =
    merge_fields-Distinct (entry j null (λ x. merge_json x v) a) b
      (entry-Distinct j null (λ x. merge_json x v) a d)

-- The objects of a patch, down to the first array or scalar, have distinct keys.
abbrev mutual
  pub IsPatch : Value → Type 0
  IsPatch (object m) = Distinct m × ArePatches m
  IsPatch _ = Unit

  pub ArePatches : Fields → Type 0
  ArePatches end = Unit
  ArePatches (field k v m) = IsPatch v × ArePatches m

-- Merging the patch once more would change no entry.
abbrev Absorbs : Fields → Fields → Type 0
Absorbs m end = Unit
Absorbs m (field k v b) = ((x : Value) × (get k m ≡ some x) × (merge_json x v ≡ x)) × Absorbs m b

merge_fields_fixed : (m b : Fields) → Absorbs m b → merge_fields m b ≡ m
unfolding merge_json
merge_fields_fixed m end s = refl
merge_fields_fixed m (field k v b) s =
    let (x, g, e) = s.0 in
    ap (λ a. merge_fields a b) (entry_fixed k null (λ y. merge_json y v) m x g e)
    ∙ merge_fields_fixed m b s.1

abbrev NotObject : Value → Type 0
NotObject (object m) = ⊥
NotObject _ = Unit

-- What is no object replaces the old value.
merge_json-overwrite : (a p : Value) → NotObject p → merge_json a p ≡ p
unfolding merge_json
merge_json-overwrite (object m) (object b) h = absurd h
merge_json-overwrite (object m) _ h = refl
merge_json-overwrite _ p h = refl

-- The first object holds every entry of the second.
abbrev Holds : Fields → Fields → Type 0
Holds m end = Unit
Holds m (field k v b) = (get k m ≡ some v) × Holds m b

Holds-field :
    (k : String) (v : Value) (m b : Fields) → get k b ≡ none → Holds m b → Holds (field k v m) b
unfolding get
Holds-field k v m end h s = tt
Holds-field k v m (field j w b) h s = (
  ground (arith, eq_iff k j, eq_iff j k, s.0),
  Holds-field k v m b (ground (arith, eq_iff k j)) s.1,
)

Holds-self : (m : Fields) → Distinct m → Holds m m
unfolding get
Holds-self end d = tt
Holds-self (field k v m) d = (rw (eq_refl k), Holds-field k v m m d.0 (Holds-self m d.1))

mutual
  unfolding merge_json

  merge_json_self : (p : Value) → IsPatch p → merge_json p p ≡ p
  merge_json_self (object b) w =
      ap object (merge_fields_fixed b b (Holds-Absorbs b b (Holds-self b w.0) w.1))
  merge_json_self _ w = refl

  Holds-Absorbs : (b m : Fields) → Holds m b → ArePatches b → Absorbs m b
  Holds-Absorbs end m h w = tt
  Holds-Absorbs (field k v b) m h w = ((v, h.0, merge_json_self v w.0), Holds-Absorbs b m h.1 w.1)

get-entry_self :
    (k : String) (f : Value → Value) (m : Fields)
    → get k (entry k null f m) ≡ some (f (or_default null (get k m)))
get-entry_self k f m = rw (get-entry k k null f m, eq_refl k)

mutual
  unfolding merge_json

  merge_json_idem : (p a : Value) → IsPatch p → merge_json (merge_json a p) p ≡ merge_json a p
  merge_json_idem (object b) (object m) w =
      ap object (merge_fields_fixed (merge_fields m b) b (merge_fields-Absorbs b m w.0 w.1))
  merge_json_idem (object b) _ w = merge_json_self (object b) w
  merge_json_idem p a w = rw (merge_json-overwrite a p tt) (merge_json-overwrite p p tt)

  merge_fields-Absorbs : (b a : Fields) → Distinct b → ArePatches b → Absorbs (merge_fields a b) b
  merge_fields-Absorbs end a d w = tt
  merge_fields-Absorbs (field k v b) a d w =
      let f = λ (x : Value). merge_json x v in
      (
        (
          f (or_default null (get k a)),
          get_absent k (entry k null f a) b d.0 ∙ get-entry_self k f a,
          merge_json_idem v (or_default null (get k a)) w.0,
        ),
        merge_fields-Absorbs b (entry k null f a) d.1 w.1,
      )

-- Merging a patch a second time changes nothing, where each object of the patch, at every depth, has
-- each key once.
merge_json_twice : (a p : Value) → IsPatch p → merge_json (merge_json a p) p ≡ merge_json a p
merge_json_twice a p w = merge_json_idem p a w
