-- ===== src/Base/TextLaws.antt =====
-- Laws of the text operations, for texts that are put together.
use Prim.Native.Char.{Char}
use Prim.Native.String
use Prim.Native.String.{String}
use mathlib.Core.Path.{◌≡◌, refl, ap, ◌∙◌, subst}
use mathlib.Core.Logic.{inl, inr}
use mathlib.Core.Bool.{Bool, true, false, ◌||◌}
use mathlib.Core.Option.{none, some}
use mathlib.Core.List.{[], ◌∷◌}
use native.Mathlib.Omega.{arith}
use text.Mathlib.Text.{◌==◌}
use text.Mathlib.TextLemmas.{nil-append, cons-append, cons-ne-nil}
use text.Mathlib.TextEquality.{eq_iff}
use tantylla.Base.Tests.{Bool-cases}
use tantylla.Base.Text.{
  is_whitespace, contains_char, trim_start, trim_end, trim, split_by, split_first, split_last,
  strip_last, strip_prefix, Free,
}

cons_nonempty : (c : Char) (s : String) → (String.◌∷◌ c s == "") ≡ false
cons_nonempty c s = elim (Bool-cases (String.◌∷◌ c s == "")) [
  | inl e ↦ absurd (cons-ne-nil c s ((eq_iff (String.◌∷◌ c s) "").0 e))
  | inr e ↦ e
]

snoc_nonempty : (s : String) (c : Char) → (String.◌++◌ s (String.◌∷◌ c "") == "") ≡ false
snoc_nonempty String.[] c = rw (nil-append (String.◌∷◌ c "")) (cons_nonempty c "")
snoc_nonempty (String.◌∷◌ d s) c =
    rw (cons-append d s (String.◌∷◌ c "")) (cons_nonempty d (String.◌++◌ s (String.◌∷◌ c "")))

module _ (test : Char → Bool) where
  pub split_by-Free : (s : String) → Free test s → split_by test s ≡ s ∷ []
  unfolding split_by
  split_by-Free String.[] p = refl
  split_by-Free (String.◌∷◌ c s) p = rw (p.0, split_by-Free s p.1)

  pub contains_char-Free : (s : String) → Free test s → contains_char test s ≡ false
  unfolding contains_char
  contains_char-Free String.[] p = refl
  contains_char-Free (String.◌∷◌ c s) p = rw (p.0, contains_char-Free s p.1)

  pub contains_char-append :
      (s t : String)
      → contains_char test (String.◌++◌ s t) ≡ contains_char test s || contains_char test t
  unfolding contains_char
  contains_char-append String.[] t = rw (nil-append t) refl
  contains_char-append (String.◌∷◌ c s) t =
      rw (cons-append c s t) (ground (arith, contains_char-append s t))

  -- A character that passes splits a text where none did before it.
  pub split_by-append :
      (s : String) (c : Char) (t : String)
      → Free test s
      → test c ≡ true
      → split_by test (String.◌++◌ s (String.◌∷◌ c t)) ≡ s ∷ split_by test t
  unfolding split_by
  split_by-append String.[] c t p h = rw (nil-append (String.◌∷◌ c t), h) refl
  split_by-append (String.◌∷◌ d s) c t p h =
      rw (cons-append d s (String.◌∷◌ c t)) (rw (p.0, split_by-append s c t p.1 h) refl)

  pub split_first-append :
      (s : String) (c : Char) (t : String)
      → Free test s
      → test c ≡ true
      → split_first test (String.◌++◌ s (String.◌∷◌ c t)) ≡ some (s, t)
  unfolding split_first
  split_first-append String.[] c t p h = rw (nil-append (String.◌∷◌ c t), h) refl
  split_first-append (String.◌∷◌ d s) c t p h =
      rw (cons-append d s (String.◌∷◌ c t)) (rw (p.0, split_first-append s c t p.1 h) refl)

  pub split_last-Free : (s : String) → Free test s → split_last test s ≡ none
  unfolding split_last
  split_last-Free String.[] p = refl
  split_last-Free (String.◌∷◌ c s) p = rw (split_last-Free s p.1, p.0)

  pub split_last-append :
      (s : String) (c : Char) (t : String)
      → Free test t
      → test c ≡ true
      → split_last test (String.◌++◌ s (String.◌∷◌ c t)) ≡ some (s, t)
  unfolding split_last
  split_last-append String.[] c t p h =
      rw (nil-append (String.◌∷◌ c t), split_last-Free t p, h) refl
  split_last-append (String.◌∷◌ d s) c t p h =
      rw (cons-append d s (String.◌∷◌ c t)) (rw (split_last-append s c t p h, split_last) refl)

  pub strip_last-append :
      (s : String) (c : Char)
      → test c ≡ true
      → strip_last test (String.◌++◌ s (String.◌∷◌ c "")) ≡ some s
  unfolding strip_last
  strip_last-append String.[] c h = rw (nil-append (String.◌∷◌ c ""), h) refl
  strip_last-append (String.◌∷◌ d s) c h =
      rw (cons-append d s (String.◌∷◌ c "")) (rw (snoc_nonempty s c, strip_last-append s c h) refl)

  -- The last character does not pass.
  pub strip_last-none :
      (s : String) (c : Char)
      → test c ≡ false
      → strip_last test (String.◌++◌ s (String.◌∷◌ c "")) ≡ none
  unfolding strip_last
  strip_last-none String.[] c h = rw (nil-append (String.◌∷◌ c ""), h) refl
  strip_last-none (String.◌∷◌ d s) c h =
      rw (cons-append d s (String.◌∷◌ c "")) (rw (snoc_nonempty s c, strip_last-none s c h) refl)

  pub Free-append : (s t : String) → Free test s → Free test t → Free test (String.◌++◌ s t)
  Free-append String.[] t p q = rw (nil-append t) q
  Free-append (String.◌∷◌ c s) t p q = rw (cons-append c s t) (p.0, Free-append s t p.1 q)

pub Free-weaken :
    (t u : Char → Bool) (s : String)
    → ((c : Char) → u c ≡ false → t c ≡ false)
    → Free u s
    → Free t s
Free-weaken t u String.[] w p = tt
Free-weaken t u (String.◌∷◌ c s) w p = (w c p.0, Free-weaken t u s w p.1)

pub strip_prefix-append : (p s : String) → strip_prefix p (String.◌++◌ p s) ≡ some s
unfolding strip_prefix
strip_prefix-append String.[] s = rw (nil-append s) refl
strip_prefix-append (String.◌∷◌ c p) s =
    rw (cons-append c p s) (ground (arith, strip_prefix-append p s))

-- A text that ends in no whitespace keeps its end, and one that starts with none its start.
pub trim_end-snoc :
    (s : String) (c : Char)
    → is_whitespace c ≡ false
    → trim_end (String.◌++◌ s (String.◌∷◌ c "")) ≡ String.◌++◌ s (String.◌∷◌ c "")
unfolding trim_end
trim_end-snoc String.[] c h = rw (nil-append (String.◌∷◌ c ""), h) refl
trim_end-snoc (String.◌∷◌ d s) c h =
    rw (cons-append d s (String.◌∷◌ c ""))
      (rw (trim_end-snoc s c h, snoc_nonempty s c) (ground arith))

pub trim_snoc :
    (d : Char) (s : String) (c : Char)
    → is_whitespace d ≡ false
    → is_whitespace c ≡ false
    → trim (String.◌∷◌ d (String.◌++◌ s (String.◌∷◌ c "")))
      ≡ String.◌∷◌ d (String.◌++◌ s (String.◌∷◌ c ""))
unfolding trim trim_start
trim_snoc d s c h k =
    ap trim_start (
      subst (λ x. trim_end x ≡ x) (cons-append d s (String.◌∷◌ c ""))
        (trim_end-snoc (String.◌∷◌ d s) c k))
    ∙ rw h refl
