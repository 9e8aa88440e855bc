-- ===== src/Search/Tests.antt =====
-- Examples: a searcher that lists the documents of an index in memory, in order.
use mathlib.Core.List.Perm
use tantylla.Base.{
  ℕ, zero, suc, ◌+◌, ◌-◌, ◌≡◌, refl, String, true, false, some, List, [], ◌∷◌, map, take, drop,
  length, get_elem?, ◌==◌, if◌then◌else◌, arith,
}
use tantylla.Base.Int.{pos}
use tantylla.Base.Text.{
  is_whitespace, contains_char, split_whitespace, split_by, trim, trim_start, trim_end,
}
use tantylla.Json.Value.{Value, object, string, field, end, get}
use tantylla.Indexer.{FacetResult}
use tantylla.Engine.Doc.{full_doc_wrapper, value_get, as_str, first_value}
use tantylla.Engine.Stored.{stored_form}
use tantylla.Engine.Tests.{memory}
use tantylla.Gateway.FacetCounts.{facet_count}
use tantylla.Search.Searcher.{Searcher, SearchParams, done, panicked}
use tantylla.Search.Expansion.{field_term, effective_query, is_bare, clauses}
use tantylla.Search.Special.{try_build_json_special_query, special_of_trimmed, is_compound}
use tantylla.Search.Hits.{grouped_hits, stored_text, document_body}
use tantylla.Search.Facets.{facets_of, facet_values}
use tantylla.Search.Run.{query_of, search}
use tantylla.Search.Laws.{Ranks}
use tantylla.Search.Page.{ranked_hit}
use tantylla.Search.Groups.{DistinctBy, find_key, partition_of, grouped_hits-groups}
use tantylla.Search.Counts.{facet_count-counted}
use tantylla.Search.Whole.{search-panicked}
use tantylla.Search.Queries.{special-prefix_query, special-fuzzy_query}
use tantylla.Search.Expanded.{query_of-expanded}

pub data MemoryQuery : Type 0 where
  parsed : String → MemoryQuery
  prefix_of fuzzy_of : String → String → ℕ → MemoryQuery

-- The scores fall from 9.
abbrev scored : ℕ → List Value → List (ℕ × ℕ)
scored i [] = []
scored i (v ∷ vs) = (9 - i, i) ∷ scored (i + 1) vs

abbrev pub found : MemoryQuery → List Value → List (ℕ × ℕ)
found (parsed s) snapshot = if s == "none" then [] else scored 0 snapshot
found q snapshot = scored 0 snapshot

abbrev pub listing : Searcher memory
listing = record {
  F32 = ℕ;
  Query = MemoryQuery;
  Address = ℕ;
  f32_text = λ x. "2";
  to_lowercase = λ s. s;
  value_text = λ v. some "{}";
  number_text = λ n. "1";
  parse_query = λ s. some (parsed s);
  fuzzy_prefix = prefix_of;
  fuzzy = fuzzy_of;
  unexpired = λ now q. q;
  count = λ q snapshot. some (length (found q snapshot));
  top_docs = λ limit offset q snapshot. some (take limit (drop offset (found q snapshot)));
  doc_set = λ q snapshot. some (map (λ (x : ℕ × ℕ). x.1) (found q snapshot));
  doc = λ address snapshot. get_elem? snapshot address;
}

abbrev stored_doc : String → String → String → Value
stored_doc id pk colour = full_doc_wrapper (record {
  id = id;
  partition_key = pk;
  doc = object (field "colour" (string colour) end);
  expires_at = pos 99;
  writetime = 5;
  generation = 0;
})

abbrev pub three_docs : List Value
three_docs = stored_doc "a" "p" "red" ∷ stored_doc "b" "p" "blue" ∷ stored_doc "c" "q" "red" ∷ []

abbrev at : ℕ → Value
at zero = stored_doc "a" "p" "red"
at (suc zero) = stored_doc "b" "p" "blue"
at _ = stored_doc "c" "q" "red"

abbrev pub three_ranks : (s : String) → (s == "none") ≡ false → Ranks listing (parsed s) three_docs
three_ranks s h = record {
  ranked = (9, 0) ∷ (8, 1) ∷ (7, 2) ∷ [];
  stored = at;
  readable = (refl, (refl, (refl, tt)));
  count_ranked = rw (h) refl;
  top_docs_ranked = λ limit offset k. rw (h) refl;
  all = 0 ∷ 1 ∷ 2 ∷ [];
  all_readable = (refl, (refl, (refl, tt)));
  doc_set_all = rw (h) refl;
  all_ranked = Perm.refl (0 ∷ 1 ∷ 2 ∷ []);
}

abbrev red : MemoryQuery
red = parsed "red"

abbrev red_ranks : Ranks listing red three_docs
red_ranks = three_ranks "red" refl

-- The second document of the partition "p" is left out.
grouped_hits-groups_example :
    (grouped_hits listing 3 10 0 red three_docs
      ≡ done (map (ranked_hit listing red three_docs red_ranks) ((9, 0) ∷ (7, 2) ∷ [])))
    × DistinctBy (partition_of listing red three_docs red_ranks) ((9, 0) ∷ (7, 2) ∷ [])
    × (find_key (partition_of listing red three_docs red_ranks) "p" ((9, 0) ∷ (7, 2) ∷ [])
        ≡ find_key
            (partition_of listing red three_docs red_ranks)
            "p"
            ((9, 0) ∷ (8, 1) ∷ (7, 2) ∷ []))
unfolding stored_text value_get as_str first_value full_doc_wrapper get stored_form
grouped_hits-groups_example =
    grouped_hits-groups listing red three_docs red_ranks 10 0 "p" (omega arith)

facet_count-counted_example :
    (r : List FacetResult) × (facets_of listing ("colour" ∷ []) red three_docs ≡ done r)
    × (facet_count "colour" "red" r ≡ 2)
unfolding full_doc_wrapper value_get get document_body facet_values stored_form
facet_count-counted_example =
    facet_count-counted listing red three_docs red_ranks "colour" "red" "colour" [] (omega arith)

abbrev nothing_grouped : SearchParams ℕ
nothing_grouped = record {
  query_str = "none";
  limit = 10;
  offset = 0;
  default_fields = [];
  facet_fields = [];
  boost_fields = [];
  group_by_partition = true;
}

search-panicked_example : search listing (pos 0) (pos 0) nothing_grouped three_docs ≡ panicked
search-panicked_example =
    search-panicked listing (pos 0) (pos 0) nothing_grouped three_docs (parsed "none")
      (unfold query_of effective_query try_build_json_special_query special_of_trimmed is_compound
          trim trim_start trim_end is_whitespace contains_char in
        refl)
      refl refl

special-prefix_query_example :
    try_build_json_special_query listing "document.name:ali*" ≡ some (prefix_of "name" "ali" 0)
unfolding field_term
special-prefix_query_example =
    special-prefix_query listing "name" "ali" (refl, (refl, (refl, (refl, tt))))
      (refl, (refl, (refl, tt))) (λ e. cc)

special-fuzzy_query_example :
    try_build_json_special_query listing "document.name:alice~2" ≡ some (fuzzy_of "name" "alice" 2)
unfolding field_term
special-fuzzy_query_example =
    special-fuzzy_query listing "name" "alice" 2 (refl, (refl, (refl, (refl, tt))))
      (refl, (refl, (refl, (refl, (refl, tt))))) (λ e. cc) (omega arith)

-- The prefix mark of the token is left to the parser.
abbrev prefix_over_name : SearchParams ℕ
prefix_over_name = record nothing_grouped { query_str = "ali*"; default_fields = "name" ∷ [] }

query_of-expanded_example : query_of listing prefix_over_name ≡ some (parsed "(document.name:ali*)")
unfolding effective_query is_bare clauses split_whitespace split_by is_whitespace contains_char trim
    trim_start trim_end
query_of-expanded_example = query_of-expanded listing prefix_over_name "ali*" [] refl refl refl
