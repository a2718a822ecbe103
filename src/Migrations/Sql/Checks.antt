-- ===== src/Migrations/Sql/Checks.antt =====
-- What the server looks up in a schema before it runs a statement.
use issueflow.Prelude.{String, Bool, true, false, not, ◌&&◌, ◌||◌, List, [], ◌∷◌, any}
use issueflow.Migrations.Sql.Data.{
  ◌is◌, ColumnType, enum_type, Column, Constraint, primary_key, foreign_key, Table, Index, EnumType,
  Schema,
}

unfoldable pub has_type : String → List EnumType → Bool
has_type n es = any (λ e. e.name is n) es

unfoldable pub has_table : String → List Table → Bool
has_table n ts = any (λ t. t.name is n) ts

unfoldable pub has_index : String → List Index → Bool
has_index n xs = any (λ x. x.name is n) xs

unfoldable pub column_named : String → List Column → Bool
column_named c cs = any (λ d. d.name is c) cs

unfoldable pub has_column : (table column : String) → List Table → Bool
has_column n c ts = any (λ t. (t.name is n) && column_named c t.columns) ts

abbrev pub type_uses : String → ColumnType → Bool
type_uses n (enum_type m) = m is n
type_uses n _ = false

unfoldable pub uses_type : String → List Column → Bool
uses_type n cs = any (λ c. type_uses n c.type) cs

abbrev pub column_of : Constraint → String
column_of (primary_key _ c) = c
column_of (foreign_key _ c _ _ _) = c

abbrev pub keyed : (column : String) → Constraint → Bool
keyed c (primary_key _ d) = d is c
keyed c _ = false

abbrev pub key_named : String → Constraint → Bool
key_named n (primary_key m _) = m is n
key_named n _ = false

abbrev pub refers : (table : String) → Constraint → Bool
refers n (primary_key _ _) = false
refers n (foreign_key _ _ m _ _) = m is n

abbrev pub refers_column : (table column : String) → Constraint → Bool
refers_column n c (primary_key _ _) = false
refers_column n c (foreign_key _ _ m d _) = (m is n) && (d is c)

-- The constraints of the table `n` on its column `c`.
unfoldable pub constrains : (table column : String) → List Table → Bool
constrains n c ts = any (λ t. (t.name is n) && any (λ k. column_of k is c) t.constraints) ts

unfoldable pub string_in : List String → String → Bool
string_in xs c = any (λ d. d is c) xs

abbrev pub index_reads : String → Index → Bool
index_reads c x = string_in x.columns c || (x.live_only && ("deletedAt" is c))

unfoldable pub reads_column : (table column : String) → List Index → Bool
reads_column n c xs = any (λ x. (x.table is n) && index_reads c x) xs

unfoldable pub any_column_uses : String → List Table → Bool
any_column_uses n ts = any (λ t. uses_type n t.columns) ts

unfoldable pub any_refers : String → List Table → Bool
any_refers n ts = any (λ t. any (refers n) t.constraints) ts

unfoldable pub any_refers_column : (table column : String) → List Table → Bool
any_refers_column n c ts = any (λ t. any (refers_column n c) t.constraints) ts

-- Tables, indexes and the indexes behind primary keys share their names; so do enum types and
-- the row types of tables.
unfoldable pub relation_taken : String → Schema → Bool
relation_taken n s =
    has_table n s.tables
    || has_index n s.indexes
    || any (λ t. any (key_named n) t.constraints) s.tables

unfoldable pub type_taken : String → Schema → Bool
type_taken n s = has_type n s.types || has_table n s.tables

abbrev pub type_known : List EnumType → ColumnType → Bool
type_known es (enum_type n) = has_type n es
type_known es _ = true

unfoldable pub all_known : List EnumType → List Column → Bool
all_known es [] = true
all_known es (c ∷ cs) = type_known es c.type && all_known es cs

-- The column of a constraint is one of its table's; a foreign key refers to a primary key.
abbrev pub constraint_fits : List Column → List Table → Constraint → Bool
constraint_fits cs ts (primary_key _ c) = column_named c cs
constraint_fits cs ts (foreign_key _ c n d _) =
    column_named c cs
    && has_column n d ts
    && any (λ t. (t.name is n) && any (keyed d) t.constraints) ts

unfoldable pub all_fit : List Column → List Table → List Constraint → Bool
all_fit cs ts [] = true
all_fit cs ts (k ∷ ks) = constraint_fits cs ts k && all_fit cs ts ks

unfoldable pub all_named : String → List Table → List String → Bool
all_named n ts [] = true
all_named n ts (c ∷ cs) = has_column n c ts && all_named n ts cs

unfoldable pub columns_distinct : List Column → Bool
columns_distinct [] = true
columns_distinct (c ∷ cs) = not (column_named c.name cs) && columns_distinct cs
