-- ===== src/Migrations/Mapping.antt =====
-- The schema that the migrations build, against the one that the entities declare.
use issueflow.Prelude.{
  String, ◌≡◌, refl, Bool, true, false, not, ◌&&◌, ◌==◌, Option, none, some, List, [], ◌∷◌, map,
  any, filter, find_one, update_where,
}
use issueflow.Migrations.Sql.{
  ◌is◌, string_dec, Schema, Column, Table, Index, EnumType, ColumnType, serial, int, text, boolean,
  jsonb, bytea, uuid, timestamp, timestamptz, varchar, enum_type, string_in,
}
use issueflow.Migrations.Sql
use issueflow.Migrations.Steps
use issueflow.Migrations.Steps.{all_migrations, migrate}
use issueflow.Migrations.Mapped.{
  Kind, plain, one_of, Declared, DeclaredIndex, Mapping, user_mapping, project_mapping,
  ticket_mapping, comment_mapping, mention_mapping, ticket_dependency_mapping, attachment_mapping,
  invalidated_token_mapping, audit_log_mapping,
}

pub data Entity : Type 0 where
  user project ticket comment mention ticket_dependency attachment : Entity
  invalidated_token audit_log : Entity

abbrev pub mapping : Entity → Mapping
mapping user = user_mapping
mapping project = project_mapping
mapping ticket = ticket_mapping
mapping comment = comment_mapping
mapping mention = mention_mapping
mapping ticket_dependency = ticket_dependency_mapping
mapping attachment = attachment_mapping
mapping invalidated_token = invalidated_token_mapping
mapping audit_log = audit_log_mapping

abbrev same_type : ColumnType → ColumnType → Bool
same_type serial serial = true
same_type int int = true
same_type text text = true
same_type boolean boolean = true
same_type jsonb jsonb = true
same_type bytea bytea = true
same_type uuid uuid = true
same_type timestamp timestamp = true
same_type timestamptz timestamptz = true
same_type (varchar m) (varchar n) = m == n
same_type _ _ = false

abbrev all_in : List String → List String → Bool
all_in xs ys = not (any (λ x. not (string_in ys x)) xs)

abbrev same_strings : List String → List String → Bool
same_strings xs ys = all_in xs ys && all_in ys xs

abbrev same_list : List String → List String → Bool
same_list [] [] = true
same_list (x ∷ xs) (y ∷ ys) = (x is y) && same_list xs ys
same_list _ _ = false

-- An enum type is known by its labels, in any order.
abbrev same_kind : List EnumType → Kind → ColumnType → Bool
same_kind es (plain u) t = same_type u t
same_kind es (one_of ls) (enum_type n) = any (λ e. (e.name is n) && same_strings ls e.labels) es
same_kind es (one_of ls) _ = false

abbrev same_bool : Bool → Bool → Bool
same_bool true b = b
same_bool false b = not b

abbrev is_column : List EnumType → Declared → Column → Bool
is_column es d c =
    (d.name is c.name) && same_kind es d.kind c.type && same_bool d.nullable c.nullable

abbrev is_index : String → DeclaredIndex → Index → Bool
is_index t d x =
    (x.table is t)
    && same_list d.columns x.columns
    && same_bool d.unique x.unique
    && same_bool d.live_only x.live_only
    && (elim d.name [ none ↦ true | some n ↦ x.name is n ])

-- The columns that the entity declares and the table has not, or has with another type or
-- nullability; those that the table has and the entity does not know; and the columns of the
-- indexes that the entity declares and the schema has not.
pub record Differences : Type 0 where
  pub declared : List String
  pub unknown : List String
  pub unindexed : List (List String)

abbrev differences_of : Mapping → Table → Schema → Differences
differences_of m t s = record {
  declared = map (λ d. d.name) (filter (λ d. not (any (is_column s.types d) t.columns)) m.columns);
  unknown = map (λ c. c.name) (filter (λ c. not (any (λ d. d.name is c.name) m.columns)) t.columns);
  unindexed =
      map (λ d. d.columns) (filter (λ d. not (any (is_index m.table d) s.indexes)) m.indexes);
}

-- `none` where the schema has no table of the name.
unfoldable pub differences : Mapping → Schema → Option Differences
differences m s = elim (find_one (λ t. t.name is m.table) s.tables) [
  | none ↦ none
  | some t ↦ some (differences_of m t s)
]

-- A database before the first migration.
abbrev pub empty : Schema
empty = record { types = []; tables = []; indexes = [] }

unfoldable migrated_differences : Entity → Option Differences
migrated_differences e = elim (migrate all_migrations empty) [
  | none ↦ none
  | some s ↦ differences (mapping e) s
]

-- The columns of another type: the deletion date that a later migration adds.
abbrev expected : Entity → List String
expected comment = "deletedAt" ∷ []
expected ticket_dependency = "deletedAt" ∷ []
expected attachment = "deletedAt" ∷ []
expected _ = []

-- All migrations run on a new database, and every entity finds its table there: each column it
-- declares with its type and nullability, an enum type by the values of the enumeration, no other
-- column, and each index it declares. What the migrations build besides, such as an index that no
-- entity declares, is not looked at. The one exception is `deletedAt` of comments, dependencies
-- and attachments: its type is `timestamptz` in the table and `timestamp` in the entity.
migrated_differences_lem :
    (e : Entity)
    → migrated_differences e ≡ some (record { declared = expected e; unknown = []; unindexed = [] })
unfolding migrated_differences differences find_one migrate Sql.run Steps.up Sql.apply
    Sql.type_taken Sql.has_type any Sql.has_table Sql.relation_taken Sql.has_index Sql.string_dec
    Sql.columns_distinct Sql.column_named Sql.all_known Sql.all_fit Sql.all_named Sql.has_column
    Sql.add_to Sql.any_column_uses Sql.any_refers Sql.any_refers_column Sql.drop_from Sql.string_in
    Sql.uses_type filter update_where
migrated_differences_lem user = refl
migrated_differences_lem project = refl
migrated_differences_lem ticket = refl
migrated_differences_lem comment = refl
migrated_differences_lem mention = refl
migrated_differences_lem ticket_dependency = refl
migrated_differences_lem attachment = refl
migrated_differences_lem invalidated_token = refl
migrated_differences_lem audit_log = refl
