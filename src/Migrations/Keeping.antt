-- ===== src/Migrations/Keeping.antt =====
-- Every statement that the server accepts keeps a schema sound.
use issueflow.Prelude.{◌≡◌, Option, none, some, List, [], ◌∷◌, Option-cases, inl, inr, arith}
use mathlib.Core.Path.{subst}
use issueflow.Migrations.Sql.{
  Schema, Statement, create_type, drop_type, create_table, drop_table, create_index, drop_index,
  add_column, drop_column, apply, run,
}
use issueflow.Migrations.Sound.{Sound}
mod Creating
mod Dropping
mod Columns

pub apply-Sound :
    (st : Statement) (s : Schema) {t : Schema} → Sound s → apply st s ≡ some t → Sound t
apply-Sound (create_type e) s ok h = Creating.create_type-Sound s ok e h
apply-Sound (drop_type n) s ok h = Dropping.drop_type-Sound s ok n h
apply-Sound (create_table a) s ok h = Creating.create_table-Sound s ok a h
apply-Sound (drop_table n) s ok h = Dropping.drop_table-Sound s ok n h
apply-Sound (create_index x) s ok h = Creating.create_index-Sound s ok x h
apply-Sound (drop_index n) s ok h = Dropping.drop_index-Sound s ok n h
apply-Sound (add_column n c) s ok h = Columns.add_column-Sound s ok n c h
apply-Sound (drop_column n c) s ok h = Columns.drop_column-Sound s ok n c h
