-- ===== src/Schema/Ddl.antt =====
-- The parts of a table that the migration creates and that the models declare.
use civio.Base.{ℕ, String, Bool, true, false, Option, none, List}

-- The types of `sqlalchemy` and `sqlalchemy.dialects.postgresql` in use; an ENUM has its name and values.
pub data ColumnType : Type 0 where
  unbounded_varchar uuid bigint int boolean jsonb long_text inet timestamptz : ColumnType
  varchar : ℕ → ColumnType
  numeric : ℕ → ℕ → ColumnType
  enum : String → List String → ColumnType
  array : ColumnType → ColumnType

pub record Column : Type 0 where
  pub name : String
  pub type : ColumnType
  pub nullable : Bool
  pub autoincrement : Bool
  pub default : Option String

abbrev pub column : String → ColumnType → Option String → Column
column name type default = record {
  name = name;
  type = type;
  nullable = false;
  autoincrement = false;
  default = default;
}

abbrev pub null_column : String → ColumnType → Option String → Column
null_column name type default = record {
  name = name;
  type = type;
  nullable = true;
  autoincrement = false;
  default = default;
}

abbrev pub serial : String → ColumnType → Column
serial name type = record {
  name = name;
  type = type;
  nullable = false;
  autoincrement = true;
  default = none;
}

-- A column, the table and column that it refers to, and the action on deletion.
pub data ForeignKey : Type 0 where
  foreign_key : String → String → String → Option String → ForeignKey

pub data UniqueKey : Type 0 where
  unique_key : Option String → List String → UniqueKey

pub data Check : Type 0 where
  check : String → String → Check

-- Name, columns, whether it is unique, and the condition of a partial index; or a name, columns, an
-- access method and operator classes.
pub data Index : Type 0 where
  index : String → List String → Bool → Option String → Index
  index_using : String → List String → String → List (String × String) → Index

pub record Table : Type 0 where
  pub name : String
  pub columns : List Column
  pub primary_key : List String
  pub foreign_keys : List ForeignKey
  pub unique_keys : List UniqueKey
  pub checks : List Check
  pub indexes : List Index
