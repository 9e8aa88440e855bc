-- ===== src/Routing/Setup.antt =====
-- How a router comes by its nodes and its key columns: `main` of rust/ingestor/src/main.rs,
-- `Router::new` of rust/ingestor/src/router/core.rs and `get_table_key_info` of
-- rust/ingestor/src/router/utils.rs, on the rows that the schema's query answers.
use tantylla.Base.{
  ℕ, ◌+◌, String, Bool, true, false, not, Option, List, [], ◌∷◌, ◌++◌, map, keep, ◌==◌, Ordering,
}
use tantylla.Base.Int.{ℤ, cmp_ℤ}
use tantylla.Base.Sort.{sort}
use tantylla.Base.Text.{split_first, is_char}
use tantylla.Base.TextOrder.{text_le}
use tantylla.Routing.Range.{ClusteringKeyColumn}
use tantylla.Routing.Forward.{Router}

-- nodes.iter().enumerate(), from a first number
unfoldable pub enumerate : ℕ → List String → List (ℕ × String)
enumerate i [] = []
enumerate i (node ∷ nodes) = (i, node) ∷ enumerate (i + 1) nodes

-- `nodes.sort()`, and a map from the numbers of the nodes.
unfoldable pub node_info_of : List String → List (ℕ × String)
unfolding enumerate
node_info_of search_nodes = enumerate 0 (sort text_le search_nodes)

-- `table_name.split_once('.')`
unfoldable pub keyspace_and_table : String → Option (String × String)
keyspace_and_table table_name = split_first (is_char b'.') table_name

-- A row of system_schema.columns: column_name, position, kind and type.
pub record ColumnRow : Type 0 where
  pub column_name : String
  pub position : ℤ
  pub kind : String
  pub cql_type : String

pub record TableKeyInfo : Type 0 where
  pub partition_key_columns : List String
  pub full_primary_key_columns : List String
  pub clustering_key_columns : List ClusteringKeyColumn

-- sort_by_key(|k| k.0)
abbrev position_le : ColumnRow → ColumnRow → Bool
position_le a b = elim (cmp_ℤ a.position b.position) [
  | Ordering.lt ↦ true
  | Ordering.eq ↦ true
  | Ordering.gt ↦ false
]

abbrev is_partition_key : ColumnRow → Bool
is_partition_key row = row.kind == "partition_key"

unfoldable pub key_info_of : List ColumnRow → TableKeyInfo
key_info_of rows =
    let partition_keys = sort position_le (keep is_partition_key rows) in
    let clustering_keys = sort position_le (keep (λ row. not (is_partition_key row)) rows) in
    let pk_names = map (λ (row : ColumnRow). row.column_name) partition_keys in
    let ck_names = map (λ (row : ColumnRow). row.column_name) clustering_keys in
    let ck_columns : List ClusteringKeyColumn =
      map (λ (row : ColumnRow). record { name = row.column_name; cql_type = row.cql_type })
        clustering_keys in
    record {
      partition_key_columns = pk_names;
      full_primary_key_columns = pk_names ++ ck_names;
      clustering_key_columns = ck_columns;
    }

-- `Router::new`, without the batch service and the table's name.
unfoldable pub new_router : List (ℕ × String) → TableKeyInfo → Router
new_router node_info key_info = record {
  node_info = node_info;
  full_primary_key_columns = key_info.full_primary_key_columns;
  columns = record {
    partition_key_columns = key_info.partition_key_columns;
    clustering_key_columns = key_info.clustering_key_columns;
  };
}
