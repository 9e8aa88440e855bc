-- ===== src/Base/TextOrder.antt =====
-- The order of Rust's `str`, and that a sort by it depends on the elements only.
use Prim.Native.Char.{Char, code}
use Prim.Native.Nat.compare as by_number
use Prim.Native.Nat.{ℕ, zero, suc, ◌<◌, Ordering, compare}
use Prim.Native.String
use Prim.Native.String.compare as by_text
use Prim.Native.String.{String}
use mathlib.Core.Path.{◌≡◌, refl, sym, ap, ◌∙◌}
use mathlib.Core.Logic.{◌⊎◌, inl, inr}
use mathlib.Core.Bool.{Bool, true, false}
use mathlib.Core.List.{List, [], ◌∷◌, foldr, Perm}
use mathlib.Core.List.Perm
use native.Mathlib.Omega.{arith}
use text.Mathlib.TextEquality.{IsScalar-prop, codes_equal}
use tantylla.Base.Sort.{insert, insert_all, sort}

abbrev not_greater : Ordering → Bool
not_greater Ordering.gt = false
not_greater _ = true

-- s <= t
abbrev pub text_le : String → String → Bool
text_le s t = not_greater (String.compare s t)

compare-cases :
    (m n : ℕ)
    → ((compare m n ≡ Ordering.lt) × (m < n))
      ⊎ (((compare m n ≡ Ordering.eq) × (m ≡ n)) ⊎ ((compare m n ≡ Ordering.gt) × (n < m)))
compare-cases zero zero = inr (inl (refl, refl))
compare-cases zero (suc n) = inl (by_number.zero-suc n, omega arith)
compare-cases (suc m) zero = inr (inr (by_number.suc-zero m, omega arith))
compare-cases (suc m) (suc n) = elim (compare-cases m n) [
  | inl (e, h) ↦ inl (by_number.suc-suc m n ∙ e, omega arith)
  | inr (inl (e, h)) ↦ inr (inl (by_number.suc-suc m n ∙ e, omega arith))
  | inr (inr (e, h)) ↦ inr (inr (by_number.suc-suc m n ∙ e, omega arith))
]

text_le-cons :
    (c d : Char) (s t : String)
    → ((code c < code d) × (text_le (String.◌∷◌ c s) (String.◌∷◌ d t) ≡ true))
      ⊎ (((c ≡ d) × (text_le (String.◌∷◌ c s) (String.◌∷◌ d t) ≡ text_le s t))
          ⊎ ((code d < code c) × (text_le (String.◌∷◌ c s) (String.◌∷◌ d t) ≡ false)))
text_le-cons c d s t = elim (compare-cases (code c) (code d)) [
  | inl (e, h) ↦ inl (h, rw (by_text.cons-cons c d s t, e) refl)
  | inr (inl (e, h)) ↦ inr (inl (codes_equal c d e, rw (by_text.cons-cons c d s t, e) refl))
  | inr (inr (e, h)) ↦ inr (inr (h, rw (by_text.cons-cons c d s t, e) refl))
]

text_le-nil : (t : String) → text_le "" t ≡ true
text_le-nil String.[] = refl
text_le-nil (String.◌∷◌ d t) = rw (by_text.nil-cons d t) refl

cons-text_le-nil : (c : Char) (s : String) → text_le (String.◌∷◌ c s) "" ≡ false
cons-text_le-nil c s = rw (by_text.cons-nil c s) refl

text_le_total : (s t : String) → text_le s t ≡ false → text_le t s ≡ true
text_le_total String.[] String.[] h = refl
text_le_total String.[] (String.◌∷◌ d t) h = absurd (cc (text_le-nil (String.◌∷◌ d t)))
text_le_total (String.◌∷◌ c s) String.[] h = text_le-nil (String.◌∷◌ c s)
text_le_total (String.◌∷◌ c s) (String.◌∷◌ d t) h =
    ground (arith, text_le-cons c d s t, text_le-cons d c t s, text_le_total s t)

text_le_antisym : (s t : String) → text_le s t ≡ true → text_le t s ≡ true → s ≡ t
text_le_antisym String.[] String.[] h k = refl
text_le_antisym String.[] (String.◌∷◌ d t) h k = absurd (cc (cons-text_le-nil d t))
text_le_antisym (String.◌∷◌ c s) String.[] h k = absurd (cc (cons-text_le-nil c s))
text_le_antisym (String.◌∷◌ c s) (String.◌∷◌ d t) h k =
    ground (arith, text_le-cons c d s t, text_le-cons d c t s, text_le_antisym s t)

text_le_trans : (s t u : String) → text_le s t ≡ true → text_le t u ≡ true → text_le s u ≡ true
text_le_trans String.[] t u h k = text_le-nil u
text_le_trans (String.◌∷◌ c s) String.[] u h k = absurd (cc (cons-text_le-nil c s))
text_le_trans (String.◌∷◌ c s) (String.◌∷◌ d t) String.[] h k = absurd (cc (cons-text_le-nil d t))
text_le_trans (String.◌∷◌ c s) (String.◌∷◌ d t) (String.◌∷◌ e u) h k =
    ground
      (arith, text_le-cons c d s t, text_le-cons d e t u, text_le-cons c e s u, text_le_trans s t u)

insert-insert :
    (x y : String) (zs : List String)
    → insert text_le x (insert text_le y zs) ≡ insert text_le y (insert text_le x zs)
unfolding insert
insert-insert x y [] = ground (arith, text_le_antisym x y, text_le_total x y, text_le_total y x)
insert-insert x y (z ∷ zs) = ground (
  arith,
  insert-insert x y zs,
  text_le_antisym x y,
  text_le_total x y,
  text_le_total y x,
  text_le_trans x y z,
  text_le_trans y x z,
  text_le_total x z,
  text_le_total y z,
  text_le_trans x z y,
  text_le_trans y z x,
)

sort-foldr : (xs : List String) → sort text_le xs ≡ foldr (insert text_le) [] xs
unfolding sort insert_all
sort-foldr [] = refl
sort-foldr (x ∷ xs) = ap (insert text_le x) (sort-foldr xs)

-- Two arrangements of the same texts are sorted alike.
pub sort-Perm : {xs ys : List String} → Perm xs ys → sort text_le xs ≡ sort text_le ys
sort-Perm {xs} {ys} p =
    sort-foldr xs
    ∙ Perm.foldr-eq (hlevel (λ (n : ℕ). IsScalar-prop n)) (insert text_le) insert-insert p []
    ∙ sym (sort-foldr ys)
