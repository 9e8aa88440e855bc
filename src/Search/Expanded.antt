-- ===== src/Search/Expanded.antt =====
-- Bare queries after their expansion.
use Prim.Native.Char.{Char}
use Prim.Native.String
use text.Mathlib.TextLemmas.{append_assoc}
use tantylla.Base.{
  ◌≡◌, refl, ap, ◌∙◌, String, Bool, true, false, not, ◌||◌, none, List, [], ◌∷◌, map, eq_iff, arith,
  Bool-cases, inl, inr,
}
use tantylla.Base.Text.{
  is_char, is_whitespace, contains_char, trim_start, trim_end, trim, split_whitespace, join,
}
use tantylla.Base.TextLaws.{contains_char-append}
use tantylla.Engine.Index.{Tantivy}
use tantylla.Search.Searcher.{Searcher, SearchParams}
use tantylla.Search.Expansion.{
  is_empty, is_bare, clauses, field_term, boosted_term, effective_query,
}
use tantylla.Search.Special.{is_compound, special_of_trimmed, try_build_json_special_query}
use tantylla.Search.Run.{query_of}

module _ (test : Char → Bool) (solid : (c : Char) → is_whitespace c ≡ true → test c ≡ false) where
  contains_char-trim_start : (s : String) → contains_char test (trim_start s) ≡ contains_char test s
  unfolding contains_char trim_start
  contains_char-trim_start String.[] = refl
  contains_char-trim_start (String.◌∷◌ c s) = elim (Bool-cases (is_whitespace c)) [
    | inl e ↦ rw (e, solid c e) (contains_char-trim_start s)
    | inr e ↦ rw e refl
  ]

  contains_char-trim_end : (s : String) → contains_char test (trim_end s) ≡ contains_char test s
  unfolding contains_char trim_end
  contains_char-trim_end String.[] = refl
  contains_char-trim_end (String.◌∷◌ c s) =
      ground (arith, contains_char-trim_end s, solid c, eq_iff (trim_end s) "")

  contains_char-trim : (s : String) → contains_char test (trim s) ≡ contains_char test s
  unfolding trim
  contains_char-trim s = contains_char-trim_start (trim_end s) ∙ contains_char-trim_end s

starts_clause :
    (g : String → String) (a : String) (bs : List String)
    → (t : String) × (join " AND " (map (λ b. String.◌++◌ "(" (g b)) (a ∷ bs)) ≡ String.◌++◌ "(" t)
unfolding join
starts_clause g a [] = (g a, refl)
starts_clause g a (b ∷ bs) = (_, append_assoc "(" (g a) _)

clauses-starts :
    (per_field : String → List String) (q token : String) (tokens : List String)
    → split_whitespace q ≡ token ∷ tokens
    → (t : String) × (clauses per_field q ≡ String.◌++◌ "(" t)
unfolding clauses
clauses-starts per_field q token tokens h =
    rw h (starts_clause (λ b. String.◌++◌ (join " OR " (per_field b)) ")") token tokens)

module _ {tantivy : Tantivy} (searcher : Searcher tantivy) where
  open searcher use {F32, Query, parse_query}

  special-none :
      (q t : String) → q ≡ String.◌++◌ "(" t → try_build_json_special_query searcher q ≡ none
  unfolding try_build_json_special_query special_of_trimmed is_compound
  special-none q t e =
      let paren : contains_char (is_char b'(') (trim q) ≡ true =
        contains_char-trim (is_char b'(') (λ c w. unfold is_whitespace in ground arith) q
        ∙ ap (contains_char (is_char b'(')) e
        ∙ contains_char-append (is_char b'(') "(" t
        ∙ (unfold contains_char in refl) in
      ground arith

  -- The boosted or the default fields are given.
  abbrev pub has_fields : SearchParams F32 → Bool
  has_fields p = not (is_empty p.boost_fields) || not (is_empty p.default_fields)

  effective_query-starts :
      (p : SearchParams F32) (token : String) (tokens : List String)
      → is_bare p.query_str ≡ true
      → has_fields p ≡ true
      → split_whitespace p.query_str ≡ token ∷ tokens
      → (t : String) × (effective_query searcher p ≡ String.◌++◌ "(" t)
  unfolding effective_query
  effective_query-starts p token tokens bare fields h =
      let boosted =
        clauses-starts (λ t. map (λ bf. boosted_term searcher bf t) p.boost_fields) p.query_str
          token tokens h in
      let plain =
        clauses-starts (λ t. map (λ f. field_term f t) p.default_fields) p.query_str token tokens
          h in
      elim (Bool-cases (is_empty p.boost_fields)) [
        | inl e ↦
            let d : is_empty p.default_fields ≡ false = ground (arith, fields, e) in
            rw (e, bare, d) plain
        | inr e ↦ rw (e, bare) boosted
      ]

  -- A bare query of one token or more that is expanded over fields goes to the parser, whatever prefix
  -- and fuzzy marks its tokens carry.
  pub query_of-expanded :
      (p : SearchParams F32) (token : String) (tokens : List String)
      → is_bare p.query_str ≡ true
      → has_fields p ≡ true
      → split_whitespace p.query_str ≡ token ∷ tokens
      → query_of searcher p ≡ parse_query (effective_query searcher p)
  unfolding query_of
  query_of-expanded p token tokens bare fields h =
      let (t, e) = effective_query-starts p token tokens bare fields h in
      rw (query_of, special-none (effective_query searcher p) t e) refl
