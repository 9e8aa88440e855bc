-- ===== src/Base/Text.antt =====
-- The operations of Rust's `str` that the program uses, character by character.
use Prim.Native.Char.{Char, code}
use Prim.Native.String
use Prim.Native.String.{String}
use Prim.Native.Nat.{ℕ}
use mathlib.Core.Path.{◌≡◌}
use mathlib.Core.Bool.{Bool, false, not, ◌&&◌, ◌||◌}
use mathlib.Core.Option.{Option, none, some}
use mathlib.Core.List.{List, [], ◌∷◌}
use text.Mathlib.Text.{◌==◌}
use tantylla.Base.Tests.{leb, eqb, if◌then◌else◌}
use tantylla.Base.Lists.{keep}

-- char::is_whitespace: the characters with the property White_Space.
unfoldable pub is_whitespace : Char → Bool
is_whitespace c =
    (leb 9 (code c) && leb (code c) 13)
    || eqb (code c) 32
    || eqb (code c) 133
    || eqb (code c) 160
    || eqb (code c) 5760
    || (leb 8192 (code c) && leb (code c) 8202)
    || eqb (code c) 8232
    || eqb (code c) 8233
    || eqb (code c) 8239
    || eqb (code c) 8287
    || eqb (code c) 12288

-- s.contains(c), of a test of characters
unfoldable pub contains_char : (Char → Bool) → String → Bool
contains_char test String.[] = false
contains_char test (String.◌∷◌ c s) = test c || contains_char test s

abbrev pub is_char : ℕ → Char → Bool
is_char n c = eqb (code c) n

unfoldable pub trim_start : String → String
unfolding is_whitespace
trim_start String.[] = ""
trim_start (String.◌∷◌ c s) =
    let rest = trim_start s in if is_whitespace c then rest else String.◌∷◌ c s

unfoldable pub trim_end : String → String
unfolding is_whitespace
trim_end String.[] = ""
trim_end (String.◌∷◌ c s) =
    let rest = trim_end s in if is_whitespace c && rest == "" then "" else String.◌∷◌ c rest

-- s.trim()
unfoldable pub trim : String → String
unfolding trim_start trim_end
trim s = trim_start (trim_end s)

abbrev pub prepend : Char → List String → List String
prepend c [] = String.◌∷◌ c "" ∷ []
prepend c (s ∷ ss) = String.◌∷◌ c s ∷ ss

-- s.split(test)
unfoldable pub split_by : (Char → Bool) → String → List String
split_by test String.[] = "" ∷ []
split_by test (String.◌∷◌ c s) =
    let rest = split_by test s in if test c then "" ∷ rest else prepend c rest

-- s.split_whitespace()
unfoldable pub split_whitespace : String → List String
unfolding split_by is_whitespace
split_whitespace s = keep (λ w. not (w == "")) (split_by is_whitespace s)

-- The texts before and after the first character that passes, and before and after the last one.
unfoldable pub split_first : (Char → Bool) → String → Option (String × String)
split_first test String.[] = none
split_first test (String.◌∷◌ c s) =
    let rest = split_first test s in
    if test c
    then some ("", s)
    else (elim rest [ none ↦ none | some (a, b) ↦ some (String.◌∷◌ c a, b) ])

unfoldable pub split_last : (Char → Bool) → String → Option (String × String)
split_last test String.[] = none
split_last test (String.◌∷◌ c s) = elim (split_last test s) [
  | none ↦ if test c then some ("", s) else none
  | some (a, b) ↦ some (String.◌∷◌ c a, b)
]

-- s.strip_suffix(c)
unfoldable pub strip_last : (Char → Bool) → String → Option String
strip_last test String.[] = none
strip_last test (String.◌∷◌ c s) =
    let rest = strip_last test s in
    if s == ""
    then (if test c then some "" else none)
    else (elim rest [ none ↦ none | some a ↦ some (String.◌∷◌ c a) ])

-- s.strip_prefix(prefix)
unfoldable pub strip_prefix : String → String → Option String
strip_prefix String.[] s = some s
strip_prefix (String.◌∷◌ d p) String.[] = none
strip_prefix (String.◌∷◌ d p) (String.◌∷◌ c s) =
    let rest = strip_prefix p s in if eqb (code c) (code d) then rest else none

-- texts.join(separator)
unfoldable pub join : String → List String → String
join separator [] = ""
join separator (v ∷ []) = v
join separator (v ∷ w ∷ vs) = String.◌++◌ v (String.◌++◌ separator (join separator (w ∷ vs)))

-- No character of the text passes.
abbrev pub Free : (Char → Bool) → String → Type 0
Free test String.[] = Unit
Free test (String.◌∷◌ c s) = (test c ≡ false) × Free test s
