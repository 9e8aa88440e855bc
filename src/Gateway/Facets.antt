-- ===== src/Gateway/Facets.antt =====
-- The facet counts of `scatter_gather`: the counts of the nodes are added up for each field and value,
-- then listed with the larger counts first. The order of a HashMap is not modelled: entries stand in
-- the order of their first insertion.
use tantylla.Base.{ℕ, ◌+◌, ◌%◌, ◌^◌, String, Bool, Option, none, some, List, [], ◌∷◌, map, leb}
use tantylla.Base.Sort
use tantylla.Base.Assoc.{update}
use tantylla.Indexer.{FacetBucket, FacetResult}

abbrev pub u64_mod : ℕ
u64_mod = 2 ^ 64

-- One field's map from value to count, and the map of all fields.
abbrev pub Buckets : Type 0
Buckets = List (String × ℕ)

abbrev pub FacetsAgg : Type 0
FacetsAgg = List (String × Buckets)

abbrev pub or_insert {ℓ} : {A : Type ℓ} → A → Option A → A
or_insert a none = a
or_insert a (some x) = x

-- `*field_map.entry(bucket.value).or_insert(0) += bucket.count`, a u64 addition.
unfoldable pub add_bucket : FacetBucket → Buckets → Buckets
add_bucket b m = update b.value (λ o. (or_insert 0 o + b.count) % u64_mod) m

unfoldable pub add_buckets : List FacetBucket → Buckets → Buckets
unfolding add_bucket
add_buckets [] m = m
add_buckets (b ∷ bs) m = add_buckets bs (add_bucket b m)

unfoldable pub add_facets : List FacetResult → FacetsAgg → FacetsAgg
unfolding add_buckets
add_facets [] agg = agg
add_facets (f ∷ fs) agg =
    add_facets fs (update f.field (λ o. add_buckets f.buckets (or_insert [] o)) agg)

-- `b.count.cmp(&a.count)`: the larger count comes first.
abbrev pub count_before : FacetBucket → FacetBucket → Bool
count_before a b = leb b.count a.count

unfoldable pub facet_results : FacetsAgg → List FacetResult
facet_results = map λ (g, m). record {
  field = g;
  buckets = Sort.sort count_before (map (λ (w, n). record { value = w; count = n }) m);
}
