-- ===== src/Node/Service.antt =====
-- The handlers of the service, on an engine. The text of an engine's error is a parameter.
use tantylla.Base.{String, Bool, true, Option, none, some, List, eqb, if◌then◌else◌}
use tantylla.Base.Int.{ℤ}
use tantylla.Indexer.{Status, IndexOperation, IndexBatchResponse, SearchRequest, SearchResponse}
use tantylla.Json.Deltas.{JsonOps}
use tantylla.Engine.Index.{Tantivy}
use tantylla.Engine.State.{Engine}
use tantylla.Engine.Batch.{process_batch}
use tantylla.Engine.Committer
use tantylla.Search.Searcher.{Searcher, SearchParams, Ran, done, failed, panicked}
use tantylla.Search.Run

-- A response, a status, or no reply from a handler that panicked.
pub data Reply {ℓ} (A : Type ℓ) : Type ℓ where
  response : A → Reply A
  refused : Status → Reply A
  lost : Reply A

-- Status::internal(text) and Status::invalid_argument(text)
abbrev pub internal : String → Status
internal text = record { code = "Internal"; message = text }

abbrev pub invalid_argument : String → Status
invalid_argument text = record { code = "InvalidArgument"; message = text }

module _ (error_text : String) where
  abbrev pub reply_of_batch : Option IndexBatchResponse → Reply IndexBatchResponse
  reply_of_batch none = refused (internal error_text)
  reply_of_batch (some r) = response r

  unfoldable pub index_batch :
      (json : JsonOps) (tantivy : Tantivy)
      → List IndexOperation
      → Engine tantivy
      → Engine tantivy × Reply IndexBatchResponse
  index_batch json tantivy operations engine =
      let (engine', result) = process_batch json tantivy operations engine in
      (engine', reply_of_batch result)

  module _ {tantivy : Tantivy} (searcher : Searcher tantivy) where
    open searcher use {F32}

    unfoldable pub params_of : SearchRequest F32 → SearchParams F32
    params_of req = record {
      query_str = req.query;
      limit = req.limit;
      offset = req.offset;
      default_fields = req.default_fields;
      facet_fields = req.facet_fields;
      boost_fields = req.boost_fields;
      group_by_partition = req.group_by_partition;
    }

    abbrev reply_of_search : Ran (SearchResponse F32) → Reply (SearchResponse F32)
    reply_of_search (done r) = response r
    reply_of_search failed = refused (internal error_text)
    reply_of_search panicked = lost

    -- The clock is read at the start and at the end of the engine's search.
    unfoldable pub search : ℤ → ℤ → SearchRequest F32 → Engine tantivy → Reply (SearchResponse F32)
    unfolding params_of
    search start_micros end_micros req engine =
        if eqb req.limit 0
        then refused (invalid_argument "Limit must be strictly greater than 0")
        else reply_of_search
            (Run.search searcher start_micros end_micros (params_of req) engine.snapshot)

unfoldable pub list_document_ids_by_partition_key :
    (tantivy : Tantivy) → String → Engine tantivy → Reply (List String)
list_document_ids_by_partition_key tantivy partition_key engine =
    response (Committer.list_document_ids_by_partition_key tantivy engine partition_key)

unfoldable pub health_check : Reply Bool
health_check = response true
