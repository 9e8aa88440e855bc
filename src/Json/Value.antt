-- ===== src/Json/Value.antt =====
-- `serde_json::Value`. An object is a list of entries; the order of its keys is not modelled: a new
-- key goes to the end.
use tantylla.Base.{
  ℕ, String, Bool, Option, none, some, List, [], ◌∷◌, ◌==◌, eq_iff, ◌≡◌, refl, arith, if◌then◌else◌,
}

-- A number is an unsigned integer, -(n + 1), or a float by its bits.
pub data Number : Type 0 where
  unsigned negative float : ℕ → Number

mutual
  pub data Value : Type 0 where
    null : Value
    bool : Bool → Value
    number : Number → Value
    string : String → Value
    array : Items → Value
    object : Fields → Value

  pub data Fields : Type 0 where
    end : Fields
    field : (key : String) (value : Value) (rest : Fields) → Fields

  pub data Items : Type 0 where
    nil : Items
    cons : (first : Value) (rest : Items) → Items

unfoldable pub items_to_list : Items → List Value
items_to_list nil = []
items_to_list (cons v vs) = v ∷ items_to_list vs

unfoldable pub items_of_list : List Value → Items
items_of_list [] = nil
items_of_list (v ∷ vs) = cons v (items_of_list vs)

-- map.get(k)
unfoldable pub get : String → Fields → Option Value
get k end = none
get k (field j v m) = if j == k then some v else get k m

-- `let v = map.entry(k).or_insert(default)`, then `*v` is replaced by a function of it.
unfoldable pub entry : String → Value → (Value → Value) → Fields → Fields
entry k default f end = field k (f default) end
entry k default f (field j v m) =
    if j == k then field j (f v) m else field j v (entry k default f m)

abbrev pub or_default : Value → Option Value → Value
or_default default none = default
or_default default (some v) = v

-- The second value where there is no first one.
abbrev pub or_else : Option Value → Option Value → Option Value
or_else none o = o
or_else (some v) o = some v

-- Each key stands once.
abbrev pub Distinct : Fields → Type 0
Distinct end = Unit
Distinct (field k v m) = (get k m ≡ none) × Distinct m

pub items_to_list-of_list : (vs : List Value) → items_to_list (items_of_list vs) ≡ vs
unfolding items_to_list items_of_list
items_to_list-of_list [] = refl
items_to_list-of_list (v ∷ vs) = rw (items_to_list-of_list vs)

pub get-entry :
    (k j : String) (default : Value) (f : Value → Value) (m : Fields)
    → get j (entry k default f m)
      ≡ (if k == j then some (f (or_default default (get k m))) else get j m)
unfolding get entry
get-entry k j default f end = ground arith
get-entry k j default f (field i v m) =
    ground (arith, get-entry k j default f m, eq_iff i k, eq_iff i j, eq_iff k j)

pub entry-Distinct :
    (k : String) (default : Value) (f : Value → Value) (m : Fields)
    → Distinct m
    → Distinct (entry k default f m)
unfolding entry get
entry-Distinct k default f end d = (refl, tt)
entry-Distinct k default f (field j v m) d =
    ground
      (arith, entry-Distinct k default f m d.1, get-entry k j default f m, eq_iff j k, eq_iff k j)

-- An entry that the function leaves alone changes nothing.
pub entry_fixed :
    (k : String) (default : Value) (f : Value → Value) (m : Fields) (v : Value)
    → get k m ≡ some v
    → f v ≡ v
    → entry k default f m ≡ m
unfolding entry get
entry_fixed k default f end v h e = cc
entry_fixed k default f (field j w m) v h e = ground (arith, entry_fixed k default f m v)
