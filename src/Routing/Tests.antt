-- ===== src/Routing/Tests.antt =====
-- Examples: a table with one clustering column, and no floats.
use tantylla.Base.{ℕ, ◌≡◌, refl, Ordering, String, true, none, some, [], ◌∷◌}
use tantylla.Routing.Cql.{Formats}
use tantylla.Routing.Ids.{join_key}
use tantylla.Routing.Compare.{Floats, compare_cql_values, compare_parsed}
use tantylla.Base.Numbers.{parse_i64}
use tantylla.Routing.Range.{KeyColumns, column_matches, after_start, filter_doc_ids_by_ck_range}
use tantylla.Routing.Selection.{filter_doc_ids_by_ck_range-rows}
use tantylla.Routing.Action.{PendingRangeStart}

abbrev bound : String → PendingRangeStart
bound key = record {
  partition_key = "p";
  target_node = "n1";
  ck_values = some key ∷ [];
  start_inclusive = true;
  writetime = 5;
}

abbrev pub no_floats : Floats
no_floats = record {
  F32 = ℕ;
  F64 = ℕ;
  parse_f32 = λ s. none;
  parse_f64 = λ s. none;
  total_cmp_f32 = λ a b. Ordering.eq;
  total_cmp_f64 = λ a b. Ordering.eq;
}

abbrev table : KeyColumns
table = record {
  partition_key_columns = "user" ∷ [];
  clustering_key_columns = record { name = "seq"; cql_type = "int" } ∷ [];
}

-- Of the rows 2 and 10 only 10 is not below 3, as a number.
filter_doc_ids_by_ck_range-rows_example :
    filter_doc_ids_by_ck_range no_floats table (bound "3") (none ∷ []) true ("p:2" ∷ "p:10" ∷ [])
    ≡ some ("p:10" ∷ [])
unfolding join_key column_matches compare_cql_values compare_parsed parse_i64 after_start
filter_doc_ids_by_ck_range-rows_example =
    filter_doc_ids_by_ck_range-rows no_floats table (bound "3") (none ∷ []) true "p" []
      (("2" ∷ []) ∷ ("10" ∷ []) ∷ []) refl ((refl, tt), tt) refl refl
      ((refl, ((refl, tt), tt)), ((refl, ((refl, (refl, tt)), tt)), tt))

abbrev pub plain_formats : Formats
plain_formats = record {
  int_text = λ i. "0";
  bool_text = λ b. "true";
  uuid_text = λ n. "u";
  decimal_text = λ n. "d";
  float_text = λ n. "f";
  double_text = λ n. "f";
  inet_text = λ n. "::1";
  base64 = λ bytes. "AA==";
  debug = λ v. "?";
  number_of_double = λ n. none;
  number_of_float = λ n. none;
}
