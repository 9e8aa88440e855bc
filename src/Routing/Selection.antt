-- ===== src/Routing/Selection.antt =====
-- The rows of a partition and the ids that `filter_doc_ids_by_ck_range` selects.
use tantylla.Base.{
  Ordering, false, none, ◌≡◌, refl, String, Bool, true, ◌&&◌, Option, some, List, [], ◌∷◌, ◌++◌,
  map, keep, length, length-append, drop, All, arith,
}
use tantylla.Routing.Action.{PendingRangeStart}
use tantylla.Routing.Ids.{join_key, IsPlain, split_key-join_key}
use tantylla.Routing.Compare.{Floats, compare_cql_values}
use tantylla.Routing.Range.{
  ClusteringKeyColumn, KeyColumns, after_start, before_end, column_matches, columns_match,
  doc_id_matches, filter_doc_ids_by_ck_range,
}

drop-append : (xs ys : List String) → drop (length xs) (xs ++ ys) ≡ ys
drop-append [] ys = refl
drop-append (x ∷ xs) ys = drop-append xs ys

All-append : (xs ys : List String) → All IsPlain xs → All IsPlain ys → All IsPlain (xs ++ ys)
All-append [] ys p q = q
All-append (x ∷ xs) ys p q = (p.0, All-append xs ys p.1 q)

-- Where a value may stand to a bound, by whether the bound itself belongs to the range.
abbrev pub from_start : Bool → Ordering → Bool
from_start inclusive Ordering.gt = true
from_start inclusive Ordering.eq = inclusive
from_start inclusive Ordering.lt = false

abbrev pub up_to_end : Bool → Ordering → Bool
up_to_end inclusive Ordering.lt = true
up_to_end inclusive Ordering.eq = inclusive
up_to_end inclusive Ordering.gt = false

after_start_lem : (b : Bool) (o : Ordering) → after_start b o ≡ from_start b o
unfolding after_start
after_start_lem true Ordering.lt = refl
after_start_lem true Ordering.eq = refl
after_start_lem true Ordering.gt = refl
after_start_lem false Ordering.lt = refl
after_start_lem false Ordering.eq = refl
after_start_lem false Ordering.gt = refl

before_end_lem : (b : Bool) (o : Ordering) → before_end b o ≡ up_to_end b o
unfolding before_end
before_end_lem true Ordering.lt = refl
before_end_lem true Ordering.eq = refl
before_end_lem true Ordering.gt = refl
before_end_lem false Ordering.lt = refl
before_end_lem false Ordering.eq = refl
before_end_lem false Ordering.gt = refl

module _ (fl : Floats) (start_inclusive end_inclusive : Bool) where
  -- A missing bound is none.
  abbrev pub in_bounds : ClusteringKeyColumn → String → Option String → Option String → Bool
  in_bounds col value none none = true
  in_bounds col value (some start) none =
      from_start start_inclusive (compare_cql_values fl value start col.cql_type)
  in_bounds col value none (some end) =
      up_to_end end_inclusive (compare_cql_values fl value end col.cql_type)
  in_bounds col value (some start) (some end) =
      from_start start_inclusive (compare_cql_values fl value start col.cql_type)
      && up_to_end end_inclusive (compare_cql_values fl value end col.cql_type)

  column_matches_lem :
      (col : ClusteringKeyColumn) (value : String) (start end : Option String)
      → column_matches fl start_inclusive end_inclusive col value start end
        ≡ in_bounds col value start end
  unfolding column_matches
  column_matches_lem col value none none = refl
  column_matches_lem col value (some start) none =
      ground
        (arith, after_start_lem start_inclusive (compare_cql_values fl value start col.cql_type))
  column_matches_lem col value none (some end) =
      before_end_lem end_inclusive (compare_cql_values fl value end col.cql_type)
  column_matches_lem col value (some start) (some end) =
      rw
        (
          after_start_lem start_inclusive (compare_cql_values fl value start col.cql_type),
          before_end_lem end_inclusive (compare_cql_values fl value end col.cql_type),
        )
        refl

  -- Each value is within the bounds of its column.
  abbrev pub row_in_range :
      List ClusteringKeyColumn → List String → List (Option String) → List (Option String) → Bool
  row_in_range (col ∷ cols) (v ∷ values) (s ∷ starts) (e ∷ ends) =
      in_bounds col v s e && row_in_range cols values starts ends
  row_in_range _ _ _ _ = true

  columns_match_lem :
      (cols : List ClusteringKeyColumn) (values : List String) (starts ends : List (Option String))
      → length values ≡ length cols
      → length starts ≡ length cols
      → length ends ≡ length cols
      → columns_match fl start_inclusive end_inclusive cols values starts ends
        ≡ some (row_in_range cols values starts ends)
  unfolding columns_match
  columns_match_lem [] values starts ends h i j = refl
  columns_match_lem (col ∷ cols) (v ∷ values) (s ∷ starts) (e ∷ ends) h i j = ground (
    arith,
    column_matches_lem col v s e,
    columns_match_lem cols values starts ends (omega arith) (omega arith) (omega arith),
  )
  columns_match_lem (col ∷ cols) [] starts ends h i j = absurd (omega arith)
  columns_match_lem (col ∷ cols) (v ∷ values) [] ends h i j = absurd (omega arith)
  columns_match_lem (col ∷ cols) (v ∷ values) (s ∷ starts) [] h i j = absurd (omega arith)

module _ (fl : Floats) (router : KeyColumns) (start : PendingRangeStart)
    (end_ck_values : List (Option String)) (end_inclusive : Bool) where
  -- The clustering values of a row: one for each column, without colons.
  abbrev pub IsRow : List String → Type 0
  IsRow cks = (length cks ≡ length router.clustering_key_columns) × All IsPlain cks

  abbrev pub selected : List String → Bool
  selected cks =
      row_in_range fl start.start_inclusive end_inclusive router.clustering_key_columns cks
        start.ck_values end_ck_values

  doc_id_matches-join_key :
      (pk : String) (pks cks : List String)
      → length (pk ∷ pks) ≡ length router.partition_key_columns
      → All IsPlain (pk ∷ pks)
      → length start.ck_values ≡ length router.clustering_key_columns
      → length end_ck_values ≡ length router.clustering_key_columns
      → IsRow cks
      → doc_id_matches fl router start end_ck_values end_inclusive (join_key ((pk ∷ pks) ++ cks))
        ≡ some (selected cks)
  unfolding doc_id_matches
  doc_id_matches-join_key pk pks cks n p s e row =
      rw
        (
          split_key-join_key pk (pks ++ cks) p.0 (All-append pks cks p.1 row.1),
          ← n,
          drop-append pks cks,
        )
        (ground (
          arith,
          length-append pks cks,
          columns_match_lem fl start.start_inclusive end_inclusive router.clustering_key_columns cks
              start.ck_values end_ck_values row.0 s e,
        ))

  -- For a partition of which each key value is free of colons: among the ids of its rows, exactly those
  -- are selected, in order, whose every clustering column is beyond its start bound and short of its end
  -- bound, or equal to a bound that is inclusive, in the order of the column's type. Rows and bounds have a
  -- value, or a missing one in a bound, for each clustering column.
  pub filter_doc_ids_by_ck_range-rows :
      (pk : String) (pks : List String) (rows : List (List String))
      → length (pk ∷ pks) ≡ length router.partition_key_columns
      → All IsPlain (pk ∷ pks)
      → length start.ck_values ≡ length router.clustering_key_columns
      → length end_ck_values ≡ length router.clustering_key_columns
      → All IsRow rows
      → filter_doc_ids_by_ck_range fl router start end_ck_values end_inclusive
          (map (λ cks. join_key ((pk ∷ pks) ++ cks)) rows)
        ≡ some (map (λ cks. join_key ((pk ∷ pks) ++ cks)) (keep selected rows))
  unfolding filter_doc_ids_by_ck_range
  filter_doc_ids_by_ck_range-rows pk pks [] n p s e rs = refl
  filter_doc_ids_by_ck_range-rows pk pks (cks ∷ rows) n p s e rs = ground (
    arith,
    doc_id_matches-join_key pk pks cks n p s e rs.0,
    filter_doc_ids_by_ck_range-rows pk pks rows n p s e rs.1,
  )
