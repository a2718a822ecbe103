-- ===== src/Migrations/Sql/Data.antt =====
-- Tables, indexes, enum types and statements, as data.
use issueflow.Prelude.{ℕ, String, Bool, true, false, List}
use mathlib.Core.Logic.{ite, dite}
use mathlib.Core.Bool.{Bool-discrete}
use package.text.Mathlib.Text
use package.text.Mathlib.TextEquality.{eq_iff}

-- Shut in proofs, where a split on it yields the equation or its negation.
unfoldable pub string_dec : Discrete String
string_dec s t =
    dite (Bool-discrete (Text.◌==◌ s t) true) (λ same. yes ((eq_iff s t).0 same))
      (λ differ. no (λ p. differ ((eq_iff s t).1 p)))

infix 50 ◌is◌
abbrev pub ◌is◌ : String → String → Bool
s is t = ite (string_dec s t) true false

pub data ColumnType : Type 0 where
  serial int text boolean jsonb bytea uuid timestamp timestamptz : ColumnType
  varchar : ℕ → ColumnType
  enum_type : String → ColumnType

pub data Default : Type 0 where
  no_default now default_false default_one : Default

pub record Column : Type 0 where
  pub name : String
  pub type : ColumnType
  pub nullable : Bool
  pub default : Default

pub data OnDelete : Type 0 where
  restrict set_null : OnDelete

-- `CONSTRAINT name PRIMARY KEY (column)` and
-- `CONSTRAINT name FOREIGN KEY (column) REFERENCES table(target) ON DELETE …`.
pub data Constraint : Type 0 where
  primary_key : (name column : String) → Constraint
  foreign_key : (name column table target : String) → OnDelete → Constraint

pub record Table : Type 0 where
  pub name : String
  pub columns : List Column
  pub constraints : List Constraint

-- `live_only` is `WHERE "deletedAt" IS NULL`.
pub record Index : Type 0 where
  pub name : String
  pub table : String
  pub columns : List String
  pub unique : Bool
  pub live_only : Bool

pub record EnumType : Type 0 where
  pub name : String
  pub labels : List String

pub record Schema : Type 0 where
  pub types : List EnumType
  pub tables : List Table
  pub indexes : List Index

pub data Statement : Type 0 where
  create_type : EnumType → Statement
  drop_type : String → Statement
  create_table : Table → Statement
  drop_table : String → Statement
  create_index : Index → Statement
  drop_index : String → Statement
  add_column : (table : String) → Column → Statement
  drop_column : (table column : String) → Statement

-- `"name" type NOT NULL`, `"name" type`, and `"name" type NOT NULL DEFAULT d`.
abbrev pub required : String → ColumnType → Column
required n t = record { name = n; type = t; nullable = false; default = no_default }

abbrev pub optional : String → ColumnType → Column
optional n t = record { name = n; type = t; nullable = true; default = no_default }

abbrev pub defaulted : String → ColumnType → Default → Column
defaulted n t d = record { name = n; type = t; nullable = false; default = d }

-- `CREATE INDEX`, `CREATE UNIQUE INDEX`, and the latter on live rows.
abbrev pub index_on : (name table : String) → List String → Index
index_on n t cs = record { name = n; table = t; columns = cs; unique = false; live_only = false }

abbrev pub unique_on : (name table : String) → List String → Index
unique_on n t cs = record { name = n; table = t; columns = cs; unique = true; live_only = false }

abbrev pub unique_live_on : (name table : String) → List String → Index
unique_live_on n t cs = record {
  name = n;
  table = t;
  columns = cs;
  unique = true;
  live_only = true;
}
