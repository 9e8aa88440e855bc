-- ===== src/Base/AssocKeys.antt =====
-- Association lists in which every key stands once.
use Prim.Native.String.{String}
use mathlib.Core.Path.{◌≡◌, refl, sym, subst}
use mathlib.Core.Logic.{inl, inr}
use mathlib.Core.Bool.{Bool, true}
use mathlib.Core.Option.{Option, none, some}
use mathlib.Core.List.{List, [], ◌∷◌}
use native.Mathlib.Omega.{arith}
use text.Mathlib.Text.{◌==◌}
use text.Mathlib.TextEquality.{eq_iff}
use tantylla.Base.Tests.{if◌then◌else◌, Bool-cases}
use tantylla.Base.Lists.{All, keep}
use tantylla.Base.Assoc.{lookup, update, insert, remove, retain, lookup-update, lookup-remove}

module _ {ℓ} {V : Type ℓ} where
  abbrev pub DistinctKeys : List (String × V) → Type ℓ
  DistinctKeys [] = Unit
  DistinctKeys ((k, v) ∷ m) = (lookup k m ≡ none) × DistinctKeys m

  -- An option that passes a test.
  abbrev pub keep_if : (V → Bool) → Option V → Option V
  keep_if p none = none
  keep_if p (some v) = if p v then some v else none

  pub keep_if-eq-some :
      (p : V → Bool) (o : Option V) (v : V) → keep_if p o ≡ some v → (o ≡ some v) × (p v ≡ true)
  keep_if-eq-some p none v h = cc
  keep_if-eq-some p (some w) v h = ground arith

  pub update-DistinctKeys :
      (k : String) (f : Option V → V) (m : List (String × V))
      → DistinctKeys m
      → DistinctKeys (update k f m)
  unfolding update lookup
  update-DistinctKeys k f [] d = (refl, tt)
  update-DistinctKeys k f ((j, v) ∷ m) d =
      ground (arith, update-DistinctKeys k f m d.1, lookup-update k j f m, eq_iff j k, eq_iff k j)

  pub insert-DistinctKeys :
      (k : String) (v : V) (m : List (String × V)) → DistinctKeys m → DistinctKeys (insert k v m)
  unfolding insert
  insert-DistinctKeys k v m d = update-DistinctKeys k (λ _. v) m d

  pub remove-DistinctKeys :
      (k : String) (m : List (String × V)) → DistinctKeys m → DistinctKeys (remove k m)
  unfolding remove
  remove-DistinctKeys k [] d = tt
  remove-DistinctKeys k ((j, v) ∷ m) d =
      ground (arith, remove-DistinctKeys k m d.1, lookup-remove k j m)

  pub lookup-retain :
      (k : String) (p : V → Bool) (m : List (String × V))
      → DistinctKeys m
      → lookup k (retain p m) ≡ keep_if p (lookup k m)
  unfolding lookup retain
  lookup-retain k p [] d = refl
  lookup-retain k p ((j, v) ∷ m) d = ground (arith, lookup-retain k p m d.1, eq_iff j k)

  pub retain-DistinctKeys :
      (p : V → Bool) (m : List (String × V)) → DistinctKeys m → DistinctKeys (retain p m)
  unfolding retain
  retain-DistinctKeys p [] d = tt
  retain-DistinctKeys p ((j, v) ∷ m) d =
      ground (arith, retain-DistinctKeys p m d.1, lookup-retain j p m d.1)

module _ {ℓ κ} {V : Type ℓ} (P : String × V → Type κ) where
  pub All-keep : (p : String × V → Bool) (m : List (String × V)) → All P m → All P (keep p m)
  All-keep p [] a = tt
  All-keep p (x ∷ m) a = ground (arith, All-keep p m a.1)

  pub All-insert :
      (k : String) (v : V) (m : List (String × V)) → P (k, v) → All P m → All P (insert k v m)
  unfolding insert update
  All-insert k v [] h a = (h, tt)
  All-insert k v ((j, w) ∷ m) h a = elim (Bool-cases (j == k)) [
    | inl e ↦ rw e (subst (λ i. P (i, v)) (sym ((eq_iff j k).0 e)) h, a.1)
    | inr e ↦ rw e (a.0, All-insert k v m h a.1)
  ]
