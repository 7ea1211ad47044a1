-- ===== src/Models/Mapping.antt =====
-- `models/base.py` and the arguments of `mapped_column`: what a mapped class declares of its table.
use civio.Base.{String, Bool, true, false, Option, none, some, List, [], ◌∷◌, ◌++◌, map}
use civio.Schema.Ddl.{
  ColumnType, timestamptz, Column, ForeignKey, foreign_key, UniqueKey, unique_key, Check, Index,
  Table,
}

pub data ColumnOption : Type 0 where
  references : String → String → Option String → ColumnOption
  primary unique autoincrement : ColumnOption

-- A `mapped_column`: its name in the database, its type (that of the annotation when none is given),
-- whether the annotation is optional, `nullable` when given, `server_default` when given, and its
-- options.
pub data Mapped : Type 0 where
  mapped : String → ColumnType → Bool → Option Bool → Option String → List ColumnOption → Mapped

pub record MappedClass : Type 0 where
  pub tablename : String
  pub fields : List Mapped
  pub unique_keys : List UniqueKey
  pub checks : List Check
  pub indexes : List Index

-- `TimestampMixin`, whose columns come after those of the class.
abbrev pub timestamps : List Mapped
timestamps =
    mapped "created_at" timestamptz false (some false) (some "now()") []
    ∷ mapped "updated_at" timestamptz false (some false) (some "now()") []
    ∷ []

abbrev is_primary : List ColumnOption → Bool
is_primary [] = false
is_primary (primary ∷ os) = true
is_primary (o ∷ os) = is_primary os

abbrev is_autoincrement : List ColumnOption → Bool
is_autoincrement [] = false
is_autoincrement (autoincrement ∷ os) = true
is_autoincrement (o ∷ os) = is_autoincrement os

-- Without `nullable`, a column is nullable when its annotation is optional.
abbrev or_annotated : Bool → Option Bool → Bool
or_annotated optional none = optional
or_annotated optional (some b) = b

abbrev column_of : Mapped → Column
column_of (mapped name type optional nullable default options) = record {
  name = name;
  type = type;
  nullable = or_annotated optional nullable;
  autoincrement = is_autoincrement options;
  default = default;
}

abbrev keys_of : List Mapped → List String
keys_of [] = []
keys_of (mapped name type optional nullable default options ∷ fs) = elim (is_primary options) [
  | false ↦ keys_of fs
  | true ↦ name ∷ keys_of fs
]

abbrev references_of : String → List ColumnOption → List ForeignKey
references_of name [] = []
references_of name (references table column on_delete ∷ os) =
    foreign_key name table column on_delete ∷ references_of name os
references_of name (o ∷ os) = references_of name os

abbrev foreign_keys_of : List Mapped → List ForeignKey
foreign_keys_of [] = []
foreign_keys_of (mapped name type optional nullable default options ∷ fs) =
    references_of name options ++ foreign_keys_of fs

abbrev uniques_of : String → List ColumnOption → List UniqueKey
uniques_of name [] = []
uniques_of name (unique ∷ os) = unique_key none (name ∷ []) ∷ uniques_of name os
uniques_of name (o ∷ os) = uniques_of name os

abbrev unique_fields : List Mapped → List UniqueKey
unique_fields [] = []
unique_fields (mapped name type optional nullable default options ∷ fs) =
    uniques_of name options ++ unique_fields fs

-- The table that a class declares.
abbrev pub declared : MappedClass → Table
declared c = record {
  name = c.tablename;
  columns = map column_of c.fields;
  primary_key = keys_of c.fields;
  foreign_keys = foreign_keys_of c.fields;
  unique_keys = unique_fields c.fields ++ c.unique_keys;
  checks = c.checks;
  indexes = c.indexes;
}
