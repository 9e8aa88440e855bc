-- ===== src/Engine/ReorderTests.antt =====
-- Examples: an upsert and a delete in both orders, on the index in memory of the other examples.
use tantylla.Base.{◌≡◌, refl, none, some, arith}
use tantylla.Base.Assoc.{lookup}
use tantylla.Json.Tests.{small_json}
use tantylla.Engine.State.{find_indexed, indexed_of, find_cached_or_indexed}
use tantylla.Engine.Batch.{is_stale, upserted, apply_upsert, apply_delete}
use tantylla.Engine.Reorder.{delete_upsert_order}
use tantylla.Engine.Tests.{memory, no_docs, write, erase}

delete_upsert_order_example :
    (find_cached_or_indexed memory
        (apply_delete small_json memory erase (apply_upsert small_json memory write no_docs).0).0
        "u1"
      ≡ none)
    × (find_cached_or_indexed memory
          (apply_upsert small_json memory write (apply_delete small_json memory erase no_docs).0).0
          "u1"
        ≡ some (upserted small_json none write 0))
unfolding find_cached_or_indexed find_indexed indexed_of is_stale lookup
delete_upsert_order_example =
    delete_upsert_order small_json memory erase write no_docs refl (omega arith) refl refl
