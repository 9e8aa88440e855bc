-- ===== src/Base/Sort.antt =====
-- A stable sort by a Boolean order, as `sort_by` of Rust's slices, and what a prefix of its result
-- depends on.
use Prim.Native.Nat.{ℕ, zero, suc, ◌≤◌}
use mathlib.Core.Path.{◌≡◌, refl, sym, ap, ◌∙◌}
use mathlib.Core.Logic.{inl, inr}
use mathlib.Core.Bool.{Bool, true, false}
use mathlib.Core.List.{List, [], ◌∷◌, ◌++◌, map}
use native.Mathlib.Omega.{arith}
use tantylla.Base.Tests.{if◌then◌else◌, Bool-cases}
use tantylla.Base.Lists.{take, take-take, concat, All}

-- `le x y` says that `x` may stay before `y`.
module _ {ℓ} {A : Type ℓ} (le : A → A → Bool) where
  -- An element goes before the first one that it may precede, so equal elements keep their order.
  unfoldable pub insert : A → List A → List A
  insert x [] = x ∷ []
  insert x (y ∷ ys) = if le x y then x ∷ y ∷ ys else y ∷ insert x ys

  -- The elements of the first list put into the second, which is sorted.
  unfoldable pub insert_all : List A → List A → List A
  insert_all [] acc = acc
  insert_all (x ∷ xs) acc = insert x (insert_all xs acc)

  unfoldable pub sort : List A → List A
  unfolding insert insert_all
  sort xs = insert_all xs []

  -- Each element may stay before all that follow.
  abbrev pub IsSorted : List A → Type 0
  IsSorted [] = Unit
  IsSorted (x ∷ xs) = All (λ y. le x y ≡ true) xs × IsSorted xs

-- The laws of a total preorder.
pub record IsPreorder {ℓ} {A : Type ℓ} (le : A → A → Bool) : Type ℓ where
  pub le_total : (x y : A) → le x y ≡ false → le y x ≡ true
  pub le_trans : (x y z : A) → le x y ≡ true → le y z ≡ true → le x z ≡ true

module _ {ℓ} {A : Type ℓ} (le : A → A → Bool) (pre : IsPreorder le) where
  abbrev Above : A → List A → Type 0
  Above x xs = All (λ y. le x y ≡ true) xs

  Above-trans : (x y : A) (xs : List A) → le x y ≡ true → Above y xs → Above x xs
  Above-trans x y [] h a = tt
  Above-trans x y (z ∷ zs) h a = (pre.le_trans x y z h a.0, Above-trans x y zs h a.1)

  insert-Above : (b x : A) (xs : List A) → le b x ≡ true → Above b xs → Above b (insert le x xs)
  unfolding insert
  insert-Above b x [] h a = (h, tt)
  insert-Above b x (y ∷ ys) h a = elim (Bool-cases (le x y)) [
    | inl e ↦ rw e (h, a)
    | inr e ↦ rw e (a.0, insert-Above b x ys h a.1)
  ]

  insert-IsSorted : (x : A) (xs : List A) → IsSorted le xs → IsSorted le (insert le x xs)
  unfolding insert
  insert-IsSorted x [] s = (tt, tt)
  insert-IsSorted x (y ∷ ys) s = elim (Bool-cases (le x y)) [
    | inl e ↦ rw e ((e, Above-trans x y ys e s.0), s)
    | inr e ↦ rw e (insert-Above y x ys (pre.le_total x y e) s.0, insert-IsSorted x ys s.1)
  ]

  insert_all-IsSorted : (xs ys : List A) → IsSorted le ys → IsSorted le (insert_all le xs ys)
  unfolding insert_all
  insert_all-IsSorted [] ys s = s
  insert_all-IsSorted (x ∷ xs) ys s =
      insert-IsSorted x (insert_all le xs ys) (insert_all-IsSorted xs ys s)

  pub sort-IsSorted : (xs : List A) → IsSorted le (sort le xs)
  unfolding sort
  sort-IsSorted xs = insert_all-IsSorted xs [] tt

  insert_all-Above :
      (b : A) (xs ys : List A) → Above b xs → Above b ys → Above b (insert_all le xs ys)
  unfolding insert_all
  insert_all-Above b [] ys a c = c
  insert_all-Above b (x ∷ xs) ys a c =
      insert-Above b x (insert_all le xs ys) a.0 (insert_all-Above b xs ys a.1 c)

  insert_of_Above : (x : A) (xs : List A) → Above x xs → insert le x xs ≡ x ∷ xs
  unfolding insert
  insert_of_Above x [] a = refl
  insert_of_Above x (y ∷ ys) a = rw (a.0)

  -- Two sorted lists merge from the left: the head of the first goes out first on a tie.
  insert_all_left :
      (x : A) (xs : List A) (y : A) (ys : List A)
      → le x y ≡ true
      → IsSorted le (x ∷ xs)
      → IsSorted le (y ∷ ys)
      → insert_all le (x ∷ xs) (y ∷ ys) ≡ x ∷ insert_all le xs (y ∷ ys)
  unfolding insert_all
  insert_all_left x xs y ys e s t =
      insert_of_Above x (insert_all le xs (y ∷ ys))
        (insert_all-Above x xs (y ∷ ys) s.0 (e, Above-trans x y ys e t.0))

  -- An element that no element of the first list may precede comes out first.
  insert_all_right :
      (xs : List A) (y : A) (ys : List A)
      → All (λ x. le x y ≡ false) xs
      → insert_all le xs (y ∷ ys) ≡ y ∷ insert_all le xs ys
  unfolding insert_all insert
  insert_all_right [] y ys a = refl
  insert_all_right (x ∷ xs) y ys a = rw (insert_all_right xs y ys a.1, a.0)

  Above-not_le :
      (x y : A) (xs : List A) → le x y ≡ false → Above x xs → All (λ z. le z y ≡ false) xs
  Above-not_le x y [] e a = tt
  Above-not_le x y (z ∷ zs) e a = (
    elim (Bool-cases (le z y)) [ inl h ↦ absurd (cc (pre.le_trans x z y a.0 h)) | inr h ↦ h ],
    Above-not_le x y zs e a.1,
  )

  take-Above : (b : A) (n : ℕ) (xs : List A) → Above b xs → Above b (take n xs)
  take-Above b zero xs a = tt
  take-Above b (suc n) [] a = tt
  take-Above b (suc n) (x ∷ xs) a = (a.0, take-Above b n xs a.1)

  take-IsSorted : (n : ℕ) (xs : List A) → IsSorted le xs → IsSorted le (take n xs)
  take-IsSorted zero xs s = tt
  take-IsSorted (suc n) [] s = tt
  take-IsSorted (suc n) (x ∷ xs) s = (take-Above x n xs s.0, take-IsSorted n xs s.1)

  -- The first `n` places of an insertion depend on the first `n` places of the list.
  take-insert :
      (n : ℕ) (x : A) (xs : List A) → take n (insert le x xs) ≡ take n (insert le x (take n xs))
  unfolding insert
  take-insert zero x xs = refl
  take-insert (suc n) x [] = refl
  take-insert (suc n) x (y ∷ ys) = elim (Bool-cases (le x y)) [
    | inl e ↦ rw e (ap (◌∷◌ x) (sym (take-take n (suc n) (y ∷ ys) (omega arith))))
    | inr e ↦ rw e (ap (◌∷◌ y) (take-insert n x ys))
  ]

  take-insert_all :
      (n : ℕ) (xs ys zs : List A)
      → take n ys ≡ take n zs
      → take n (insert_all le xs ys) ≡ take n (insert_all le xs zs)
  unfolding insert_all
  take-insert_all n [] ys zs h = h
  take-insert_all n (x ∷ xs) ys zs h =
      take-insert n x (insert_all le xs ys)
      ∙ ap (λ l. take n (insert le x l)) (take-insert_all n xs ys zs h)
      ∙ sym (take-insert n x (insert_all le xs zs))

  insert_all_nil : (xs : List A) → IsSorted le xs → insert_all le xs [] ≡ xs
  unfolding insert_all
  insert_all_nil [] s = refl
  insert_all_nil (x ∷ xs) s = rw (insert_all_nil xs s.1) (insert_of_Above x xs s.0)

  -- Of a sorted list that is put in, no more than the first `n` elements reach the first `n` places.
  take-insert_all_prefix :
      (n m : ℕ) (xs ys : List A)
      → n ≤ m
      → IsSorted le xs
      → IsSorted le ys
      → take n (insert_all le (take m xs) ys) ≡ take n (insert_all le xs ys)
  take-insert_all_prefix zero m xs ys h s t = refl
  take-insert_all_prefix (suc n) zero xs ys h s t = absurd (omega arith)
  take-insert_all_prefix (suc n) (suc m) [] ys h s t = refl
  take-insert_all_prefix (suc n) (suc m) (x ∷ xs) [] h s t =
      let prefix : IsSorted le (x ∷ take m xs) = (take-Above x m xs s.0, take-IsSorted m xs s.1) in
      rw (insert_all_nil (x ∷ xs) s, insert_all_nil (x ∷ take m xs) prefix)
        (ap (◌∷◌ x) (take-take n m xs (omega arith)))
  take-insert_all_prefix (suc n) (suc m) (x ∷ xs) (y ∷ ys) h s t = elim (Bool-cases (le x y)) [
    | inl e ↦
        rw
          (
            insert_all_left x xs y ys e s t,
            insert_all_left x (take m xs) y ys e (take-Above x m xs s.0, take-IsSorted m xs s.1) t,
          )
          (ap (◌∷◌ x) (take-insert_all_prefix n m xs (y ∷ ys) (omega arith) s.1 t))
    | inr e ↦
        let low : All (λ z. le z y ≡ false) (x ∷ xs) = (e, Above-not_le x y xs e s.0) in
        rw
          (
            insert_all_right (x ∷ xs) y ys low,
            insert_all_right (x ∷ take m xs) y ys
                (e, Above-not_le x y (take m xs) e (take-Above x m xs s.0)),
          )
          (ap (◌∷◌ y) (take-insert_all_prefix n (suc m) (x ∷ xs) ys (omega arith) s t.1))
  ]

  insert_all-append :
      (xs ys zs : List A) → insert_all le (xs ++ ys) zs ≡ insert_all le xs (insert_all le ys zs)
  unfolding insert_all
  insert_all-append [] ys zs = refl
  insert_all-append (x ∷ xs) ys zs = ap (insert le x) (insert_all-append xs ys zs)

  -- The first `n` places of the merge of sorted lists need only a prefix of each list.
  pub take-sort-concat :
      (n m : ℕ) (xss : List (List A))
      → n ≤ m
      → All (IsSorted le) xss
      → take n (sort le (concat (map (take m) xss))) ≡ take n (sort le (concat xss))
  unfolding sort
  take-sort-concat n m [] h s = refl
  take-sort-concat n m (xs ∷ xss) h s =
      rw
        (
          insert_all-append (take m xs) (concat (map (take m) xss)) [],
          insert_all-append xs (concat xss) [],
        )
        (take-insert_all_prefix n m xs _ h s.0 (sort-IsSorted (concat (map (take m) xss)))
          ∙ take-insert_all n xs _ _ (take-sort-concat n m xss h s.1))
