-- ===== src/Routing/Range.antt =====
-- `filter_doc_ids_by_ck_range` of rust/ingestor/src/router/core.rs.
use tantylla.Base.{
  ◌+◌, Ordering, String, Bool, true, false, not, ◌&&◌, Option, none, some, List, [], ◌∷◌, length,
  drop, eqb, if◌then◌else◌,
}
use tantylla.Routing.Action.{PendingRangeStart}
use tantylla.Routing.Ids.{split_key}
use tantylla.Routing.Compare.{Floats, compare_cql_values}

pub record ClusteringKeyColumn : Type 0 where
  pub name : String
  pub cql_type : String

abbrev pub is_less : Ordering → Bool
is_less Ordering.lt = true
is_less _ = false

abbrev pub is_greater : Ordering → Bool
is_greater Ordering.gt = true
is_greater _ = false

-- The tests of one bound, by the comparison with it.
unfoldable pub after_start : Bool → Ordering → Bool
after_start inclusive cmp = if inclusive then not (is_less cmp) else is_greater cmp

unfoldable pub before_end : Bool → Ordering → Bool
before_end inclusive cmp = if inclusive then not (is_greater cmp) else is_less cmp

-- A bound without a value admits every value.
abbrev pub bounded : (Ordering → Bool) → (String → Ordering) → Option String → Bool
bounded test cmp none = true
bounded test cmp (some bound) = test (cmp bound)

module _ (fl : Floats) (start_inclusive end_inclusive : Bool) where
  unfoldable pub column_matches :
      ClusteringKeyColumn → String → Option String → Option String → Bool
  unfolding after_start before_end
  column_matches col value start_val end_val =
      let cmp = λ (bound : String). compare_cql_values fl value bound col.cql_type in
      bounded (after_start start_inclusive) cmp start_val
      && bounded (before_end end_inclusive) cmp end_val

  -- The loop over the columns; `none` is the panic of an index that is out of range.
  unfoldable pub columns_match :
      List ClusteringKeyColumn
      → List String
      → List (Option String)
      → List (Option String)
      → Option Bool
  unfolding column_matches
  columns_match [] values starts ends = some true
  columns_match (col ∷ cols) (v ∷ values) (s ∷ starts) (e ∷ ends) =
      let rest = columns_match cols values starts ends in
      if column_matches col v s e then rest else some false
  columns_match _ _ _ _ = none

-- The columns of the router that the filter reads.
pub record KeyColumns : Type 0 where
  pub partition_key_columns : List String
  pub clustering_key_columns : List ClusteringKeyColumn

module _ (fl : Floats) (router : KeyColumns) (start : PendingRangeStart)
    (end_ck_values : List (Option String)) (end_inclusive : Bool) where
  unfoldable pub doc_id_matches : String → Option Bool
  unfolding columns_match split_key
  doc_id_matches doc_id =
      let parts = split_key doc_id in
      let pk_col_count = length router.partition_key_columns in
      if eqb (length parts) (pk_col_count + length router.clustering_key_columns)
      then columns_match fl start.start_inclusive end_inclusive router.clustering_key_columns
          (drop pk_col_count parts) start.ck_values end_ck_values
      else some false

  unfoldable pub filter_doc_ids_by_ck_range : List String → Option (List String)
  unfolding doc_id_matches
  filter_doc_ids_by_ck_range [] = some []
  filter_doc_ids_by_ck_range (doc_id ∷ doc_ids) =
      let rest = filter_doc_ids_by_ck_range doc_ids in
      elim (doc_id_matches doc_id) [
        | none ↦ none
        | some b ↦ elim rest [ none ↦ none | some ids ↦ some (if b then doc_id ∷ ids else ids) ]
      ]
