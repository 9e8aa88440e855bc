-- ===== src/Search/Expansion.antt =====
-- The expansion of a bare query over the boosted or the default fields.
use Prim.Native.String
use tantylla.Base.{String, Bool, true, false, not, ◌&&◌, List, [], ◌∷◌, map, ◌==◌, if◌then◌else◌}
use tantylla.Base.Text.{is_char, contains_char, trim, split_whitespace, join}
use tantylla.Indexer.{BoostField}
use tantylla.Engine.Index.{Tantivy}
use tantylla.Search.Searcher.{Searcher, SearchParams}

abbrev pub is_empty {ℓ} : {A : Type ℓ} → List A → Bool
is_empty [] = true
is_empty (x ∷ xs) = false

-- `no_colon && no_quote && non_blank`
unfoldable pub is_bare : String → Bool
unfolding contains_char trim
is_bare query_str =
    not (contains_char (is_char b':') query_str)
    && not (contains_char (is_char 34) query_str)
    && not (trim query_str == "")

-- One clause for each token, `(a OR b OR ...)`, of the fields' terms for it.
unfoldable pub clauses : (String → List String) → String → String
unfolding join split_whitespace
clauses per_field query_str = join " AND " (
    map (λ token. String.◌++◌ "(" (String.◌++◌ (join " OR " (per_field token)) ")"))
      (split_whitespace query_str))

-- format!("document.{}:{}", field, token)
unfoldable pub field_term : String → String → String
field_term field token = String.◌++◌ "document." (String.◌++◌ field (String.◌++◌ ":" token))

module _ {tantivy : Tantivy} (searcher : Searcher tantivy) where
  open searcher use {F32, f32_text}

  -- format!("document.{}:{}^{}", bf.field, token, bf.boost)
  unfoldable pub boosted_term : BoostField F32 → String → String
  unfolding field_term
  boosted_term bf token =
      String.◌++◌ (field_term bf.field token) (String.◌++◌ "^" (f32_text bf.boost))

  unfoldable pub effective_query : SearchParams F32 → String
  unfolding is_bare clauses boosted_term
  effective_query p =
      if not (is_empty p.boost_fields) && is_bare p.query_str
      then clauses (λ token. map (λ bf. boosted_term bf token) p.boost_fields) p.query_str
      else if not (is_empty p.default_fields) && is_bare p.query_str
      then clauses (λ token. map (λ field. field_term field token) p.default_fields) p.query_str
      else p.query_str
