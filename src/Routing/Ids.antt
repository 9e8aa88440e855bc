-- ===== src/Routing/Ids.antt =====
-- The ids of documents: key values joined by colons, rust/ingestor/src/router/core.rs, and their split.
use Prim.Native.Char.{Char}
use text.Mathlib.TextLemmas.{nil-append, cons-append}
use tantylla.Base.{Bool, String, List, [], ◌∷◌, ◌≡◌, ap, ◌∙◌, refl, All}
use tantylla.Base.Text.{is_char, join, split_by, Free}
use tantylla.Base.TextLaws.{split_by-Free, split_by-append}

-- values.join(":")
unfoldable pub join_key : List String → String
unfolding join
join_key values = join ":" values

abbrev pub is_colon : Char → Bool
is_colon c = is_char b':' c

-- doc_id.split(':')
unfoldable pub split_key : String → List String
unfolding split_by
split_key doc_id = split_by is_colon doc_id

-- A value without a colon.
abbrev pub IsPlain : String → Type 0
IsPlain = Free is_colon

-- An id splits into the values that it was joined from, when there is a value and none has a colon.
pub split_key-join_key :
    (v : String) (vs : List String)
    → IsPlain v
    → All IsPlain vs
    → split_key (join_key (v ∷ vs)) ≡ v ∷ vs
unfolding split_key join_key
split_key-join_key v [] p ps = split_by-Free is_colon v p
split_key-join_key v (w ∷ vs) p ps =
    rw (cons-append ":" "" (join ":" (w ∷ vs)), nil-append (join ":" (w ∷ vs)))
      (split_by-append is_colon v ":" (join ":" (w ∷ vs)) p refl
        ∙ ap (λ ss. v ∷ ss) (split_key-join_key w vs ps.0 ps.1))
