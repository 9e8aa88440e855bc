-- ===== src/Search/Special.antt =====
-- `try_build_json_special_query`: prefix and fuzzy queries on a path below `document`.
use tantylla.Base.{ℕ, String, Bool, not, ◌&&◌, ◌||◌, Option, none, some, ◌==◌, leb, if◌then◌else◌}
use tantylla.Base.Text.{
  is_char, contains_char, trim, split_first, split_last, strip_last, strip_prefix,
}
use tantylla.Base.Numbers.{parse_u8}
use tantylla.Engine.Index.{Tantivy}
use tantylla.Search.Searcher.{Searcher}

-- The part of the value before a last `*`, where it is not empty and has no other `*`.
unfoldable pub prefix_token : String → Option String
unfolding strip_last contains_char
prefix_token value_part = elim (strip_last (is_char b'*') value_part) [
  | none ↦ none
  | some token ↦
      if not (token == "") && not (contains_char (is_char b'*') token) then some token else none
]

-- The token and the distance around the last `~`, with a distance up to 2.
unfoldable pub fuzzy_token : String → Option (String × ℕ)
unfolding split_last contains_char parse_u8
fuzzy_token value_part = elim (split_last (is_char b'~') value_part) [
  | none ↦ none
  | some (token, dist_str) ↦ elim (parse_u8 dist_str) [
    | none ↦ none
    | some dist ↦
        if not (token == "") && not (contains_char (is_char b'~') token) && leb dist 2
        then some (token, dist)
        else none
  ]
]

-- Spaces, parentheses and quotes make a query compound.
unfoldable pub is_compound : String → Bool
unfolding contains_char
is_compound trimmed =
    contains_char (is_char b' ') trimmed
    || contains_char (is_char b'(') trimmed
    || contains_char (is_char 34) trimmed

module _ {tantivy : Tantivy} (searcher : Searcher tantivy) where
  open searcher use {Query, to_lowercase, fuzzy_prefix, fuzzy}

  -- The query of a value, of its path below `document`.
  unfoldable pub special_of_value : String → String → Option Query
  unfolding prefix_token fuzzy_token
  special_of_value json_subpath value_part = elim (prefix_token value_part) [
    | some token ↦ some (fuzzy_prefix json_subpath (to_lowercase token) 0)
    | none ↦ elim (fuzzy_token value_part) [
      | none ↦ none
      | some (token, dist) ↦ some (fuzzy json_subpath (to_lowercase token) dist)
    ]
  ]

  unfoldable pub special_of_trimmed : String → Option Query
  unfolding is_compound split_first strip_prefix special_of_value
  special_of_trimmed trimmed =
      let special : Option Query = elim (split_first (is_char b':') trimmed) [
        | none ↦ none
        | some (field_part, value_part) ↦ elim (strip_prefix "document." field_part) [
          | none ↦ none
          | some json_subpath ↦ special_of_value json_subpath value_part
        ]
      ] in
      if is_compound trimmed then none else special

  unfoldable pub try_build_json_special_query : String → Option Query
  unfolding trim special_of_trimmed
  try_build_json_special_query query_str = special_of_trimmed (trim query_str)
