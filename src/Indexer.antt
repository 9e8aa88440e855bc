-- ===== src/Indexer.antt =====
-- The messages of rust/common/proto/indexer/v1/service.proto, as the generated types of
-- `tantylla_common::indexer` have them. `F32` is the type of the floats, a parameter.
use tantylla.Base.{ℕ, zero, suc, Bool, String, List, Option}
use tantylla.Base.Int.{ℤ}

pub data OpType : Type 0 where
  unspecified upsert delete partition_delete : OpType

-- `OpType::try_from(v).unwrap_or(OpType::Unspecified)`.
unfoldable pub op_type_of : ℕ → OpType
op_type_of (suc zero) = OpType.upsert
op_type_of (suc (suc zero)) = OpType.delete
op_type_of (suc (suc (suc zero))) = OpType.partition_delete
op_type_of _ = OpType.unspecified

-- `op_type as i32`.
unfoldable pub op_type_code : OpType → ℕ
op_type_code OpType.unspecified = 0
op_type_code OpType.upsert = 1
op_type_code OpType.delete = 2
op_type_code OpType.partition_delete = 3

pub record CollectionDelta : Type 0 where
  pub column : String
  pub tombstoned : Bool
  pub added_elements_json : String
  pub deleted_elements_json : String

pub record IndexOperation : Type 0 where
  pub id : String
  pub op_type : ℕ
  pub writetime : ℕ
  pub cdc_ttl : Option ℤ
  pub payload_json : String
  pub collection_deltas : List CollectionDelta
  pub partition_key : Option String

pub record IndexBatchResponse : Type 0 where
  pub processed_count : ℕ
  pub skipped_count : ℕ
  pub success : Bool

pub data Consistency : Type 0 where
  unspecified any_node all_nodes : Consistency

pub record BoostField (F32 : Type 0) : Type 0 where
  pub field : String
  pub boost : F32

pub record SearchRequest (F32 : Type 0) : Type 0 where
  pub query : String
  pub limit : ℕ
  pub offset : ℕ
  pub consistency : Consistency
  pub default_fields : List String
  pub facet_fields : List String
  pub boost_fields : List (BoostField F32)
  pub group_by_partition : Bool

pub record SearchHit (F32 : Type 0) : Type 0 where
  pub id : String
  pub score : F32
  pub payload_json : String
  pub partition_key : String

pub record FacetBucket : Type 0 where
  pub value : String
  pub count : ℕ

pub record FacetResult : Type 0 where
  pub field : String
  pub buckets : List FacetBucket

pub record SearchResponse (F32 : Type 0) : Type 0 where
  pub hits : List (SearchHit F32)
  pub total_hits : ℕ
  pub duration_ms : ℕ
  pub facets : List FacetResult

-- `tonic::Status`.
pub record Status : Type 0 where
  pub code : String
  pub message : String
