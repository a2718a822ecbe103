-- ===== src/Migrations/Sound.antt =====
-- The schemas in which nothing refers to a type, a table or a column that is not there.
use issueflow.Prelude.{String, ◌≡◌, Bool, true, List, any}
use issueflow.Migrations.Sql.{
  ◌is◌, Schema, Index, has_type, has_table, has_column, any_column_uses, any_refers,
  any_refers_column, constrains, reads_column,
}

unfoldable pub indexed : (table : String) → List Index → Bool
indexed n xs = any (λ x. x.table is n) xs

pub record Sound (s : Schema) : Type 0 where
  pub types : (n : String) → any_column_uses n s.tables ≡ true → has_type n s.types ≡ true
  pub tables : (n : String) → any_refers n s.tables ≡ true → has_table n s.tables ≡ true
  pub indexes : (n : String) → indexed n s.indexes ≡ true → has_table n s.tables ≡ true
  pub targets :
      (n c : String) → any_refers_column n c s.tables ≡ true → has_column n c s.tables ≡ true
  pub constraints : (n c : String) → constrains n c s.tables ≡ true → has_column n c s.tables ≡ true
  pub columns : (n c : String) → reads_column n c s.indexes ≡ true → has_column n c s.tables ≡ true
