-- ===== src/Schema.antt =====
-- internal/schema/model.go: the metadata that the extractor reads from Oracle.
-- Row counts are natural numbers. The sizes in megabytes, which are only displayed, are left out.
pub mod TypeMap
use existora2pg.Prelude.{
  ℕ, Bool, not, ◌&&◌, ◌++◌, ◌∷◌, [], Option, none, some, List, Text, codes, if◌then◌else◌, is_nil,
}
use existora2pg.Prelude.Int.{ℤ}

pub record View : Type 0 where
  pub owner : Text
  pub name : Text
  pub definition : Text

pub record MaterializedView : Type 0 where
  pub owner : Text
  pub name : Text
  pub definition : Text
  pub refresh_mode : Text

pub record Trigger : Type 0 where
  pub owner : Text
  pub name : Text
  pub table_name : Text
  pub trigger_type : Text
  pub event : Text
  pub definition : Text

pub record Procedure : Type 0 where
  pub owner : Text
  pub name : Text
  pub object_type : Text
  pub definition : Text

pub record Column : Type 0 where
  pub name : Text
  pub oracle_type : Text
  pub pg_type : Text
  pub precision : Option ℤ
  pub scale : Option ℤ
  pub length : Option ℤ
  pub nullable : Bool
  pub default_expr : Option Text
  pub position : ℕ

-- The type is a string in Go; `other` is a string that is none of the constants.
pub data ConstraintType : Type 0 where
  pk fk uniq check : ConstraintType
  other : Text → ConstraintType

pub record Constraint : Type 0 where
  pub name : Text
  pub type : ConstraintType
  pub columns : List Text
  pub ref_table : Text
  pub ref_columns : List Text
  pub on_delete : Text
  pub condition : Text

pub record IndexColumn : Type 0 where
  pub name : Text
  pub descending : Bool
  pub position : ℕ

pub record Index : Type 0 where
  pub name : Text
  pub columns : List IndexColumn
  pub unique : Bool
  pub type : Text
  pub local : Bool

pub record Partition : Type 0 where
  pub name : Text
  pub high_value : Text
  pub position : ℕ
  pub num_rows : ℕ

-- The strategy is a string in Go, RANGE, LIST or HASH.
pub record PartitionInfo : Type 0 where
  pub strategy : Text
  pub key_columns : List Text
  pub partitions : List Partition

pub record Sequence : Type 0 where
  pub name : Text
  pub min_value : ℤ
  pub max_value : ℤ
  pub increment : ℤ
  pub last_value : ℤ
  pub cache_size : ℤ
  pub cycle : Bool

pub record Table : Type 0 where
  pub owner : Text
  pub name : Text
  pub columns : List Column
  pub primary_key : Option Constraint
  pub constraints : List Constraint
  pub indexes : List Index
  pub partitioning : Option PartitionInfo
  pub comment : Text
  pub num_rows : ℕ

pub record Schema : Type 0 where
  pub owner : Text
  pub tables : List Table
  pub sequences : List Sequence
  pub views : List View
  pub materialized_views : List MaterializedView
  pub triggers : List Trigger
  pub procedures : List Procedure

-- The partitions of a table, none where it has no partitioning.
abbrev pub partitions_of : Option PartitionInfo → List Partition
partitions_of none = []
partitions_of (some info) = info.partitions

-- Table.IsPartitioned
abbrev pub is_partitioned : Table → Bool
is_partitioned t = not (is_nil (partitions_of t.partitioning))

-- Table.QualifiedName
unfoldable pub qualified_name : Table → Text
qualified_name t = if is_nil t.owner then t.name else t.owner ++ (codes "." ++ t.name)
