-- ===== src/Gateway/FacetCounts.antt =====
-- The counts of the merged facets of `scatter_gather`.
use tantylla.Base.{
  ℕ, ◌+◌, ◌<◌, ◌≡◌, refl, sym, ◌∙◌, Ordering, String, Option, none, some, List, [], ◌∷◌, map, ◌==◌,
  eq_iff, arith, if◌then◌else◌, inl, inr, Bool-cases,
}
use tantylla.Base.Sort
use tantylla.Base.Assoc.{update}
use tantylla.Indexer.{SearchRequest, SearchResponse, FacetBucket, FacetResult}
use tantylla.Gateway.Facets.{
  Buckets, FacetsAgg, u64_mod, or_insert, add_bucket, add_buckets, add_facets, count_before,
  facet_results,
}
use tantylla.Gateway.Gather.{
  Answer, Gathered, ScatterFail, ok, err, on_success, on_failure, collect, initial, respond, finish,
  scatter_gather,
}
use tantylla.Gateway.Collect.{answers, gathered, scatter_gather-gathered}

-- How often a list of buckets, and a list of facets, counts a value.
abbrev pub count_in : String → List FacetBucket → ℕ
count_in w [] = 0
count_in w (b ∷ bs) = (if b.value == w then b.count else 0) + count_in w bs

abbrev pub facet_count : String → String → List FacetResult → ℕ
facet_count f w [] = 0
facet_count f w (r ∷ rs) = (if r.field == f then count_in w r.buckets else 0) + facet_count f w rs

-- The counts of all the answers.
abbrev pub sum_facet_count : {F32 : Type 0} → String → String → List (Answer F32) → ℕ
sum_facet_count f w [] = 0
sum_facet_count f w (ok r ∷ rs) = facet_count f w r.facets + sum_facet_count f w rs
sum_facet_count f w (err e ∷ rs) = sum_facet_count f w rs

-- The same of the maps that the loop fills.
abbrev pub bucket_count : String → Buckets → ℕ
bucket_count w [] = 0
bucket_count w ((v, n) ∷ m) = (if v == w then n else 0) + bucket_count w m

abbrev pub agg_count : String → String → FacetsAgg → ℕ
agg_count f w [] = 0
agg_count f w ((g, m) ∷ agg) = (if g == f then bucket_count w m else 0) + agg_count f w agg

pub add_bucket_lem :
    (w : String) (b : FacetBucket) (m : Buckets)
    → bucket_count w m + (if b.value == w then b.count else 0) < u64_mod
    → bucket_count w (add_bucket b m) ≡ bucket_count w m + (if b.value == w then b.count else 0)
unfolding add_bucket update
add_bucket_lem w b [] h = ground arith
add_bucket_lem w b ((v, n) ∷ m) h =
    ground (arith, add_bucket_lem w b m, eq_iff v b.value, eq_iff b.value w, eq_iff v w)

add_buckets_lem :
    (w : String) (bs : List FacetBucket) (m : Buckets)
    → bucket_count w m + count_in w bs < u64_mod
    → bucket_count w (add_buckets bs m) ≡ bucket_count w m + count_in w bs
unfolding add_buckets
add_buckets_lem w [] m h = omega arith
add_buckets_lem w (b ∷ bs) m h = omega (
  arith,
  add_bucket_lem w b m (omega arith),
  add_buckets_lem w bs (add_bucket b m) (omega (arith, add_bucket_lem w b m (omega arith))),
)

update-agg_count :
    (f w : String) (r : FacetResult) (agg : FacetsAgg)
    → agg_count f w agg + (if r.field == f then count_in w r.buckets else 0) < u64_mod
    → agg_count f w (update r.field (λ o. add_buckets r.buckets (or_insert [] o)) agg)
      ≡ agg_count f w agg + (if r.field == f then count_in w r.buckets else 0)
unfolding update
update-agg_count f w r [] h = ground (arith, add_buckets_lem w r.buckets [])
update-agg_count f w r ((g, m) ∷ agg) h = ground (
  arith,
  update-agg_count f w r agg,
  add_buckets_lem w r.buckets m,
  eq_iff g r.field,
  eq_iff r.field f,
  eq_iff g f,
)

add_facets_lem :
    (f w : String) (rs : List FacetResult) (agg : FacetsAgg)
    → agg_count f w agg + facet_count f w rs < u64_mod
    → agg_count f w (add_facets rs agg) ≡ agg_count f w agg + facet_count f w rs
unfolding add_facets
add_facets_lem f w [] agg h = omega arith
add_facets_lem f w (r ∷ rs) agg h =
    let one = update-agg_count f w r agg (omega arith) in
    omega (
      arith,
      one,
      add_facets_lem f w rs (update r.field (λ o. add_buckets r.buckets (or_insert [] o)) agg)
          (omega (arith, one)),
    )

count_in-insert :
    (w : String) (b : FacetBucket) (bs : List FacetBucket)
    → count_in w (Sort.insert count_before b bs) ≡ count_in w (b ∷ bs)
unfolding Sort.insert
count_in-insert w b [] = refl
count_in-insert w b (c ∷ bs) = elim (Bool-cases (count_before b c)) [
  | inl e ↦ rw e
  | inr e ↦ rw e (omega (arith, count_in-insert w b bs))
]

count_in-sort :
    (w : String) (bs : List FacetBucket) → count_in w (Sort.sort count_before bs) ≡ count_in w bs
unfolding Sort.sort Sort.insert_all
count_in-sort w [] = refl
count_in-sort w (b ∷ bs) =
    omega (arith, count_in-insert w b (Sort.sort count_before bs), count_in-sort w bs)

listed : Buckets → List FacetBucket
listed = map λ (w, n). record { value = w; count = n }

count_in-listed : (w : String) (m : Buckets) → count_in w (listed m) ≡ bucket_count w m
unfolding listed
count_in-listed w [] = refl
count_in-listed w ((v, n) ∷ m) = omega (arith, count_in-listed w m)

pub facet_count-facet_results :
    (f w : String) (agg : FacetsAgg) → facet_count f w (facet_results agg) ≡ agg_count f w agg
unfolding facet_results listed
facet_count-facet_results f w [] = refl
facet_count-facet_results f w ((g, m) ∷ agg) =
    cc (count_in-sort w (listed m) ∙ count_in-listed w m, facet_count-facet_results f w agg)

module _ {F32 : Type 0} where
  agg_count-collect :
      (f w : String) (idx : ℕ) (rs : List (Answer F32)) (g : Gathered F32)
      → agg_count f w g.facets_agg + sum_facet_count f w rs < u64_mod
      → agg_count f w (collect idx rs g).facets_agg
        ≡ agg_count f w g.facets_agg + sum_facet_count f w rs
  unfolding collect
  agg_count-collect f w idx [] g h = omega arith
  agg_count-collect f w idx (ok r ∷ rs) g h =
      let one = add_facets_lem f w r.facets g.facets_agg (omega arith) in
      omega (arith, one, agg_count-collect f w (idx + 1) rs (on_success r g) (omega (arith, one)))
  agg_count-collect f w idx (err e ∷ rs) g h =
      agg_count-collect f w (idx + 1) rs (on_failure idx e g) h

  agg_count-gathered :
      (f w : String) (rs : List (Answer F32))
      → sum_facet_count f w rs < u64_mod
      → agg_count f w (gathered rs).facets_agg ≡ sum_facet_count f w rs
  unfolding gathered initial
  agg_count-gathered f w rs h = omega (arith, agg_count-collect f w 0 rs initial (omega arith))

module _ {F32 : Type 0} (partial_cmp : F32 → F32 → Option Ordering) where
  facets-finish :
      (f w : String) (req : SearchRequest F32) (g : Gathered F32) (o : Option ScatterFail)
      {r : SearchResponse F32}
      → finish partial_cmp req g o ≡ ok r
      → facet_count f w r.facets ≡ agg_count f w g.facets_agg
  unfolding finish respond
  facets-finish f w req g none e = cc (e, facet_count-facet_results f w g.facets_agg)
  facets-finish f w req g (some x) e = cc

  -- In the response to a query each value of each facet counts as often as in all the answers together,
  -- when that sum fits in u64.
  pub facet_count-scatter_gather :
      (f w : String) (clients : List (SearchRequest F32 → Answer F32)) (req : SearchRequest F32)
      {r : SearchResponse F32}
      → scatter_gather partial_cmp clients req ≡ ok r
      → sum_facet_count f w (answers clients req) < u64_mod
      → facet_count f w r.facets ≡ sum_facet_count f w (answers clients req)
  facet_count-scatter_gather f w clients req e h =
      facets-finish f w req (gathered (answers clients req)) _
        (sym (scatter_gather-gathered partial_cmp clients req) ∙ e)
      ∙ agg_count-gathered f w (answers clients req) h
