-- ===== src/Routing/Action.antt =====
-- rust/ingestor/src/router/common.rs: the start bound of a range delete, and the action of a row.
use tantylla.Base.{ℕ, String, Bool, Option, List}
use tantylla.Indexer.{OpType}

-- `scylla_cdc::consumer::OperationType`.
pub data OperationType : Type 0 where
  pre_image row_update row_insert row_delete partition_delete row_range_del_incl_left
        row_range_del_excl_left row_range_del_incl_right row_range_del_excl_right post_image :
      OperationType

-- A clustering key column without a value is unbounded.
pub record PendingRangeStart : Type 0 where
  pub partition_key : String
  pub target_node : String
  pub ck_values : List (Option String)
  pub start_inclusive : Bool
  pub writetime : ℕ

pub data RoutingAction : Type 0 where
  skip range_delete_start range_delete_end : RoutingAction
  forward : OpType → RoutingAction

unfoldable pub determine : OperationType → RoutingAction
determine OperationType.pre_image = skip
determine OperationType.row_range_del_incl_left = range_delete_start
determine OperationType.row_range_del_excl_left = range_delete_start
determine OperationType.row_range_del_incl_right = range_delete_end
determine OperationType.row_range_del_excl_right = range_delete_end
determine OperationType.row_insert = forward OpType.upsert
determine OperationType.row_update = forward OpType.upsert
determine OperationType.post_image = forward OpType.upsert
determine OperationType.row_delete = forward OpType.delete
determine OperationType.partition_delete = forward OpType.partition_delete
