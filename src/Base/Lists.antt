-- ===== src/Base/Lists.antt =====
-- Lists measured and cut by native numbers, and predicates on lists by recursion.
use Prim.Native.Nat.{ℕ, zero, suc, ◌+◌, ◌≤◌, min}
use mathlib.Core.Path.{◌≡◌, refl, ap}
use mathlib.Core.Bool.{Bool, false, ◌||◌}
use mathlib.Core.Option.{Option, none, some}
use mathlib.Core.List.{List, [], ◌∷◌, ◌++◌, map}
use native.Mathlib.Omega.{arith}
use text.Mathlib.Text.{◌==◌}
use Prim.Native.String.{String}
use tantylla.Base.Tests.{if◌then◌else◌}

module _ {ℓ} {A : Type ℓ} where
  abbrev pub length : List A → ℕ
  length [] = 0
  length (x ∷ xs) = suc (length xs)

  abbrev pub take : ℕ → List A → List A
  take zero xs = []
  take (suc n) [] = []
  take (suc n) (x ∷ xs) = x ∷ take n xs

  abbrev pub drop : ℕ → List A → List A
  drop zero xs = xs
  drop (suc n) [] = []
  drop (suc n) (x ∷ xs) = drop n xs

  abbrev pub concat : List (List A) → List A
  concat [] = []
  concat (xs ∷ xss) = xs ++ concat xss

  abbrev pub get_elem? : List A → ℕ → Option A
  get_elem? [] i = none
  get_elem? (x ∷ xs) zero = some x
  get_elem? (x ∷ xs) (suc i) = get_elem? xs i

  -- The elements that pass a Boolean test, in order.
  abbrev pub keep : (A → Bool) → List A → List A
  keep p [] = []
  keep p (x ∷ xs) = let rest = keep p xs in if p x then x ∷ rest else rest

  abbrev pub any : (A → Bool) → List A → Bool
  any p [] = false
  any p (x ∷ xs) = p x || any p xs

  pub length-append : (xs ys : List A) → length (xs ++ ys) ≡ length xs + length ys
  length-append [] ys = omega arith
  length-append (x ∷ xs) ys = omega (arith, length-append xs ys)

  pub length-take : (n : ℕ) (xs : List A) → length (take n xs) ≡ min n (length xs)
  length-take zero xs = omega arith
  length-take (suc n) [] = omega arith
  length-take (suc n) (x ∷ xs) = omega (arith, length-take n xs)

  pub take-take : (n m : ℕ) (xs : List A) → n ≤ m → take n (take m xs) ≡ take n xs
  take-take zero m xs h = refl
  take-take (suc n) zero xs h = absurd (omega arith)
  take-take (suc n) (suc m) [] h = refl
  take-take (suc n) (suc m) (x ∷ xs) h = ap (◌∷◌ x) (take-take n m xs (omega arith))

  -- A page cut from a list is the same page cut from a long enough prefix of it.
  pub page_of_prefix :
      (o l m : ℕ) (xs : List A) → o + l ≤ m → take l (drop o (take m xs)) ≡ take l (drop o xs)
  page_of_prefix zero l m xs h = take-take l m xs (omega arith)
  page_of_prefix (suc o) l zero xs h = absurd (omega arith)
  page_of_prefix (suc o) l (suc m) [] h = refl
  page_of_prefix (suc o) l (suc m) (x ∷ xs) h = page_of_prefix o l m xs (omega arith)

module _ {ℓ κ} {A : Type ℓ} where
  -- Every element satisfies the predicate.
  abbrev pub All : (A → Type κ) → List A → Type κ
  All P [] = Unit
  All P (x ∷ xs) = P x × All P xs

module _ {ℓ κ} {A : Type ℓ} (P : A → Type κ) where
  pub All-take : (n : ℕ) (xs : List A) → All P xs → All P (take n xs)
  All-take zero xs a = tt
  All-take (suc n) [] a = tt
  All-take (suc n) (x ∷ xs) a = (a.0, All-take n xs a.1)

  pub All-drop : (n : ℕ) (xs : List A) → All P xs → All P (drop n xs)
  All-drop zero xs a = a
  All-drop (suc n) [] a = tt
  All-drop (suc n) (x ∷ xs) a = All-drop n xs a.1

module _ {ℓ κ} {A : Type ℓ} {B : Type κ} (f : A → B) where
  pub length-map : (xs : List A) → length (map f xs) ≡ length xs
  length-map [] = refl
  length-map (x ∷ xs) = omega (arith, length-map xs)

  pub map-take : (n : ℕ) (xs : List A) → map f (take n xs) ≡ take n (map f xs)
  map-take zero xs = refl
  map-take (suc n) [] = refl
  map-take (suc n) (x ∷ xs) = ap (◌∷◌ (f x)) (map-take n xs)

  pub map-drop : (n : ℕ) (xs : List A) → map f (drop n xs) ≡ drop n (map f xs)
  map-drop zero xs = refl
  map-drop (suc n) [] = refl
  map-drop (suc n) (x ∷ xs) = map-drop n xs

abbrev pub contains : String → List String → Bool
contains s = any (λ t. t == s)
