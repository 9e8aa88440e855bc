-- ===== src/Base/Assoc.antt =====
-- Maps with text keys as association lists: `HashMap`, `DashMap` and JSON objects. A new key goes to
-- the end, and an entry is changed where it stands.
use Prim.Native.String.{String}
use mathlib.Core.Path.{◌≡◌, refl}
use mathlib.Core.Bool.{Bool, not}
use mathlib.Core.Option.{Option, none, some}
use mathlib.Core.List.{List, [], ◌∷◌}
use native.Mathlib.Omega.{arith}
use text.Mathlib.Text.{◌==◌}
use text.Mathlib.TextEquality.{eq_iff}
use tantylla.Base.Tests.{if◌then◌else◌}
use tantylla.Base.Lists.{keep}

module _ {ℓ} {V : Type ℓ} where
  -- map.get(k)
  unfoldable pub lookup : String → List (String × V) → Option V
  lookup key [] = none
  lookup key ((other, value) ∷ entries) = if other == key then some value else lookup key entries

  -- The entry API: the value of a key, absent or present, is replaced by a function of it.
  unfoldable pub update : String → (Option V → V) → List (String × V) → List (String × V)
  update k f [] = (k, f none) ∷ []
  update k f ((j, v) ∷ m) = if j == k then (j, f (some v)) ∷ m else (j, v) ∷ update k f m

  -- map.insert(k, v)
  unfoldable pub insert : String → V → List (String × V) → List (String × V)
  unfolding update
  insert k v m = update k (λ _. v) m

  -- map.remove(k)
  unfoldable pub remove : String → List (String × V) → List (String × V)
  remove k m = keep (λ e. not (e.0 == k)) m

  -- map.retain(|_, v| p(v))
  unfoldable pub retain : (V → Bool) → List (String × V) → List (String × V)
  retain p m = keep (λ e. p e.1) m

  pub lookup-update :
      (k j : String) (f : Option V → V) (m : List (String × V))
      → lookup j (update k f m) ≡ (if k == j then some (f (lookup k m)) else lookup j m)
  unfolding lookup update
  lookup-update k j f [] = refl
  lookup-update k j f ((i, v) ∷ m) =
      ground (arith, lookup-update k j f m, eq_iff i k, eq_iff i j, eq_iff k j)

  pub lookup-remove :
      (k j : String) (m : List (String × V))
      → lookup j (remove k m) ≡ (if k == j then none else lookup j m)
  unfolding lookup remove
  lookup-remove k j [] = ground arith
  lookup-remove k j ((i, v) ∷ m) =
      ground (arith, lookup-remove k j m, eq_iff i k, eq_iff i j, eq_iff k j)

  pub lookup-insert :
      (key other : String) (value : V) (entries : List (String × V))
      → lookup other (insert key value entries)
        ≡ (if key == other then some value else lookup other entries)
  unfolding insert
  lookup-insert key other value entries = lookup-update key other (λ _. value) entries
