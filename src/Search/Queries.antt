-- ===== src/Search/Queries.antt =====
-- Prefix and fuzzy queries in their written form, read by `try_build_json_special_query` of
-- rust/node/src/engine/core.rs.
use Prim.Native.Char.{Char}
use Prim.Native.String
use text.Mathlib.TextLemmas.{nil-append, cons-append, append_assoc}
use tantylla.Base.{
  ℕ, zero, suc, ◌≤◌, ◌≡◌, ◌≢◌, refl, ◌∙◌, String, false, none, some, ◌==◌, eq_iff, arith,
  Bool-cases, inl, inr,
}
use tantylla.Base.Text.{is_char, is_whitespace, contains_char, Free}
use tantylla.Base.TextLaws.{
  split_last-append, strip_last-append, strip_last-none, contains_char-Free, Free-weaken,
}
use tantylla.Base.Numbers.{parse_u8}
use tantylla.Engine.Index.{Tantivy}
use tantylla.Search.Searcher.{Searcher}
use tantylla.Search.Expansion.{field_term}
use tantylla.Search.Marks.{
  marks_path, marks_token, is_compound-append, plain_token, special_of_query,
}
use tantylla.Search.Special.{
  prefix_token, fuzzy_token, special_of_value, is_compound, try_build_json_special_query,
}

-- A distance as it is written.
abbrev pub distance_text : ℕ → String
distance_text zero = "0"
distance_text (suc zero) = "1"
distance_text _ = "2"

module _ {tantivy : Tantivy} (searcher : Searcher tantivy) where
  open searcher use {Query, to_lowercase, fuzzy_prefix, fuzzy}

  nonempty : (token : String) → token ≢ "" → (token == "") ≡ false
  nonempty token n = elim (Bool-cases (token == "")) [
    | inl e ↦ absurd (n ((eq_iff token "").0 e))
    | inr e ↦ e
  ]

  prefix_token_lem :
      (token : String)
      → Free marks_token token
      → token ≢ ""
      → prefix_token (String.◌++◌ token "*") ≡ some token
  unfolding prefix_token
  prefix_token_lem token p n =
      rw
        (
          prefix_token,
          strip_last-append (is_char b'*') token "*" refl,
          nonempty token n,
          contains_char-Free (is_char b'*') token (Free-weaken _ _ token (λ c h. ground arith) p),
        )
        refl

  -- The written query for a prefix of a path's token.
  abbrev pub prefix_query : String → String → String
  prefix_query path token = field_term path (String.◌++◌ token "*")

  -- The written query for a token and a distance, 0 to 2.
  abbrev pub fuzzy_query : String → String → ℕ → String
  fuzzy_query path token n = field_term path (String.◌++◌ (String.◌++◌ token "~") (distance_text n))

  -- The query `document.<path>:<token>*` becomes the prefix query of the token in lower case on the path.
  -- The path is free of colons, spaces, opening parentheses and double quotes; the token is not empty and
  -- free of stars, tildes, spaces, opening parentheses and double quotes.
  pub special-prefix_query :
      (path token : String)
      → Free marks_path path
      → Free marks_token token
      → token ≢ ""
      → try_build_json_special_query searcher (prefix_query path token)
        ≡ some (fuzzy_prefix path (to_lowercase token) 0)
  unfolding special_of_value
  special-prefix_query path token p t n =
      special_of_query searcher path token "*" p
        (rw (is_compound-append token "*", plain_token token t)
          (unfold is_compound contains_char in refl))
        (unfold is_whitespace in refl)
      ∙ rw (special_of_value, prefix_token_lem token t n) refl

  fuzzy_token_lem :
      (token : String) (n : ℕ) (c : Char)
      → Free marks_token token
      → token ≢ ""
      → is_char b'~' c ≡ false
      → parse_u8 (String.◌∷◌ c "") ≡ some n
      → n ≤ 2
      → fuzzy_token (String.◌++◌ (String.◌++◌ token "~") (String.◌∷◌ c "")) ≡ some (token, n)
  unfolding fuzzy_token
  fuzzy_token_lem token n c p ne d parses small =
      let same : String.◌++◌ (String.◌++◌ token "~") (String.◌∷◌ c "")
          ≡ String.◌++◌ token (String.◌∷◌ "~" (String.◌∷◌ c "")) =
        append_assoc token "~" (String.◌∷◌ c "")
        ∙ rw (cons-append "~" "" (String.◌∷◌ c ""), nil-append (String.◌∷◌ c "")) refl in
      rw
        (
          same,
          fuzzy_token,
          split_last-append (is_char b'~') token "~" (String.◌∷◌ c "") (d, tt) refl,
          parses,
          nonempty token ne,
          contains_char-Free (is_char b'~') token (Free-weaken _ _ token (λ x h. ground arith) p),
        )
        (ground arith)

  prefix_token-none :
      (s : String) (c : Char)
      → is_char b'*' c ≡ false
      → prefix_token (String.◌++◌ s (String.◌∷◌ c "")) ≡ none
  unfolding prefix_token
  prefix_token-none s c h = rw (prefix_token, strip_last-none (is_char b'*') s c h) refl

  special_fuzzy_value :
      (path value token : String) (n : ℕ)
      → prefix_token value ≡ none
      → fuzzy_token value ≡ some (token, n)
      → special_of_value searcher path value ≡ some (fuzzy path (to_lowercase token) n)
  unfolding special_of_value
  special_fuzzy_value path value token n a b = rw (special_of_value, a, b) refl

  fuzzy_of_char :
      (path token : String) (n : ℕ) (c : Char)
      → Free marks_path path
      → Free marks_token token
      → token ≢ ""
      → (marks_token c ≡ false) × (is_whitespace c ≡ false)
      → parse_u8 (String.◌∷◌ c "") ≡ some n
      → n ≤ 2
      → try_build_json_special_query searcher
          (field_term path (String.◌++◌ (String.◌++◌ token "~") (String.◌∷◌ c "")))
        ≡ some (fuzzy path (to_lowercase token) n)
  fuzzy_of_char path token n c p t ne k parses small =
      special_of_query searcher path (String.◌++◌ token "~") c p
        (rw
          (
            is_compound-append (String.◌++◌ token "~") (String.◌∷◌ c ""),
            is_compound-append token "~",
            plain_token token t,
            plain_token (String.◌∷◌ c "") (k.0, tt),
          )
          (unfold is_compound contains_char in refl))
        k.1
      ∙ special_fuzzy_value path (String.◌++◌ (String.◌++◌ token "~") (String.◌∷◌ c "")) token n
          (prefix_token-none (String.◌++◌ token "~") c (ground (arith, k.0)))
          (fuzzy_token_lem token n c t ne (ground (arith, k.0)) parses small)

  -- The query `document.<path>:<token>~<n>` becomes the fuzzy query of the token in lower case on the path,
  -- with the distance n, which is 0, 1 or 2. The path is free of colons, spaces, opening parentheses and
  -- double quotes; the token is not empty and free of stars, tildes, spaces, opening parentheses and double
  -- quotes.
  pub special-fuzzy_query :
      (path token : String) (n : ℕ)
      → Free marks_path path
      → Free marks_token token
      → token ≢ ""
      → n ≤ 2
      → try_build_json_special_query searcher (fuzzy_query path token n)
        ≡ some (fuzzy path (to_lowercase token) n)
  unfolding parse_u8 is_whitespace
  special-fuzzy_query path token zero p t ne h =
      fuzzy_of_char path token 0 "0" p t ne (refl, refl) refl h
  special-fuzzy_query path token (suc zero) p t ne h =
      fuzzy_of_char path token 1 "1" p t ne (refl, refl) refl h
  special-fuzzy_query path token (suc (suc zero)) p t ne h =
      fuzzy_of_char path token 2 "2" p t ne (refl, refl) refl h
  special-fuzzy_query path token (suc (suc (suc n))) p t ne h = absurd (omega arith)
