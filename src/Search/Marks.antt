-- ===== src/Search/Marks.antt =====
-- The characters of paths and tokens, and the written query on a path as its value's query, for
-- `try_build_json_special_query` of rust/node/src/engine/core.rs.
use Prim.Native.Char.{Char}
use Prim.Native.String
use text.Mathlib.TextLemmas.{nil-append, cons-append, append_assoc}
use tantylla.Base.{◌≡◌, refl, ap, sym, ◌∙◌, subst, String, Bool, false, ◌||◌, some, arith}
use tantylla.Base.Text.{
  is_char, is_whitespace, contains_char, trim, split_first, strip_prefix, Free,
}
use tantylla.Base.TextLaws.{
  trim_snoc, split_first-append, strip_prefix-append, contains_char-append, contains_char-Free,
  Free-append, Free-weaken,
}
use tantylla.Engine.Index.{Tantivy}
use tantylla.Search.Searcher.{Searcher}
use tantylla.Search.Expansion.{field_term}
use tantylla.Search.Special.{
  special_of_value, is_compound, special_of_trimmed, try_build_json_special_query,
}

-- The characters with a meaning in a path, and those with one in a token.
abbrev pub marks_path : Char → Bool
marks_path c = is_char b':' c || is_char b' ' c || is_char b'(' c || is_char 34 c

abbrev pub marks_token : Char → Bool
marks_token c = is_char b'*' c || is_char b'~' c || is_char b' ' c || is_char b'(' c || is_char 34 c

pub is_compound-append :
    (s t : String) → is_compound (String.◌++◌ s t) ≡ is_compound s || is_compound t
unfolding is_compound
is_compound-append s t = ground (
  arith,
  contains_char-append (is_char b' ') s t,
  contains_char-append (is_char b'(') s t,
  contains_char-append (is_char 34) s t,
)

plain_path : (path : String) → Free marks_path path → is_compound path ≡ false
unfolding is_compound
plain_path path p =
    rw
      (
        contains_char-Free (is_char b' ') path (Free-weaken _ _ path (λ c h. ground arith) p),
        contains_char-Free (is_char b'(') path (Free-weaken _ _ path (λ c h. ground arith) p),
        contains_char-Free (is_char 34) path (Free-weaken _ _ path (λ c h. ground arith) p),
      )
      refl

pub plain_token : (token : String) → Free marks_token token → is_compound token ≡ false
unfolding is_compound
plain_token token p =
    rw
      (
        contains_char-Free (is_char b' ') token (Free-weaken _ _ token (λ c h. ground arith) p),
        contains_char-Free (is_char b'(') token (Free-weaken _ _ token (λ c h. ground arith) p),
        contains_char-Free (is_char 34) token (Free-weaken _ _ token (λ c h. ground arith) p),
      )
      refl

module _ {tantivy : Tantivy} (searcher : Searcher tantivy) where
  open searcher use {Query, to_lowercase, fuzzy_prefix, fuzzy}

  abbrev document_path : String → String
  document_path path = String.◌++◌ "document." path

  special_of_parts :
      (trimmed field_part value path : String)
      → is_compound trimmed ≡ false
      → split_first (is_char b':') trimmed ≡ some (field_part, value)
      → strip_prefix "document." field_part ≡ some path
      → special_of_trimmed searcher trimmed ≡ special_of_value searcher path value
  unfolding special_of_trimmed is_compound
  special_of_parts trimmed field_part value path c f p = rw (c, f, p) refl

  -- A written query on a path comes to the query of its value.
  special_of_field_term :
      (path value : String)
      → Free marks_path path
      → is_compound value ≡ false
      → special_of_trimmed searcher (field_term path value) ≡ special_of_value searcher path value
  unfolding field_term
  special_of_field_term path value p v =
      let q : String.◌++◌ "document." (String.◌++◌ path (String.◌++◌ ":" value))
          ≡ String.◌++◌ (document_path path) (String.◌∷◌ ":" value) =
        rw (cons-append ":" "" value, nil-append value)
          (sym (append_assoc "document." path (String.◌∷◌ ":" value))) in
      let colon : String.◌++◌ ":" value ≡ String.◌∷◌ ":" value =
        rw (cons-append ":" "" value, nil-append value) refl in
      let whole : is_compound (String.◌++◌ (document_path path) (String.◌∷◌ ":" value)) ≡ false =
        rw
          (
            ← colon,
            is_compound-append (document_path path) (String.◌++◌ ":" value),
            is_compound-append "document." path,
            is_compound-append ":" value,
            plain_path path p,
            v,
          )
          (unfold is_compound contains_char in refl) in
      rw q (
        special_of_parts (String.◌++◌ (document_path path) (String.◌∷◌ ":" value))
          (document_path path) value path whole
          (split_first-append (is_char b':') (document_path path) ":" value
            (Free-append (is_char b':') "document." path
              (refl, (refl, (refl, (refl, (refl, (refl, (refl, (refl, (refl, tt)))))))))
              (Free-weaken _ _ path (λ c h. ground arith) p))
            refl)
          (strip_prefix-append "document." path))

  -- The same of the query as it is given, where its value ends in no whitespace.
  pub special_of_query :
      (path s : String) (c : Char)
      → Free marks_path path
      → is_compound (String.◌++◌ s (String.◌∷◌ c "")) ≡ false
      → is_whitespace c ≡ false
      → try_build_json_special_query searcher (field_term path (String.◌++◌ s (String.◌∷◌ c "")))
        ≡ special_of_value searcher path (String.◌++◌ s (String.◌∷◌ c ""))
  unfolding try_build_json_special_query
  special_of_query path s c p v w =
      let body = String.◌++◌ "ocument." (String.◌++◌ path (String.◌++◌ ":" s)) in
      let e : String.◌∷◌ "d" (String.◌++◌ body (String.◌∷◌ c ""))
          ≡ field_term path (String.◌++◌ s (String.◌∷◌ c "")) =
        unfold field_term in
        ap (String.◌∷◌ "d") (simp append_assoc)
        ∙ sym (
            cons-append "d" "ocument."
              (String.◌++◌ path (String.◌++◌ ":" (String.◌++◌ s (String.◌∷◌ c ""))))) in
      ap (special_of_trimmed searcher)
        (subst (λ x. trim x ≡ x) e (trim_snoc "d" body c (unfold is_whitespace in refl) w))
      ∙ special_of_field_term path (String.◌++◌ s (String.◌∷◌ c "")) p v
