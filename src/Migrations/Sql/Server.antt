-- ===== src/Migrations/Sql/Server.antt =====
-- What a statement makes of a schema.
use issueflow.Prelude.{
  String, not, ◌&&◌, ◌||◌, Option, none, some, List, [], ◌∷◌, ◌++◌, filter, update_where,
  if◌then◌else◌,
}
use issueflow.Migrations.Sql.Data.{
  ◌is◌, Column, Table, Schema, Statement, create_type, drop_type, create_table, drop_table,
  create_index, drop_index, add_column, drop_column,
}
use issueflow.Migrations.Sql.Checks.{
  has_type, has_table, has_index, has_column, column_of, index_reads, any_column_uses, any_refers,
  any_refers_column, relation_taken, type_taken, type_known, all_known, all_fit, all_named,
  columns_distinct,
}

unfoldable pub add_to : Column → Table → Table
add_to c t = record t { columns = t.columns ++ (c ∷ []) }

unfoldable pub drop_from : (column : String) → Table → Table
drop_from c t = record t {
  columns = filter (λ d. not (d.name is c)) t.columns;
  constraints = filter (λ k. not (column_of k is c)) t.constraints;
}

-- A dropped table takes its indexes along, a dropped column the constraints on it and the indexes
-- that read it. A table stays while another refers to it, a column while a foreign key does, a
-- type while a column has it.
unfoldable pub apply : Statement → Schema → Option Schema
apply (create_type e) s =
    if type_taken e.name s then none else some (record s { types = e ∷ s.types })
apply (drop_type n) s =
    if not (has_type n s.types) || any_column_uses n s.tables
    then none
    else some (record s { types = filter (λ e. not (e.name is n)) s.types })
apply (create_table t) s =
    if relation_taken t.name s
      || type_taken t.name s
      || not (columns_distinct t.columns)
      || not (all_known s.types t.columns)
      || not (all_fit t.columns (t ∷ s.tables) t.constraints)
    then none
    else some (record s { tables = t ∷ s.tables })
apply (drop_table n) s =
    let ts = filter (λ t. not (t.name is n)) s.tables in
    if not (has_table n s.tables) || any_refers n ts
    then none
    else some (record s { tables = ts; indexes = filter (λ x. not (x.table is n)) s.indexes })
apply (create_index x) s =
    if relation_taken x.name s
      || not (has_table x.table s.tables)
      || not (all_named x.table s.tables x.columns)
      || (x.live_only && not (has_column x.table "deletedAt" s.tables))
    then none
    else some (record s { indexes = x ∷ s.indexes })
apply (drop_index n) s =
    if not (has_index n s.indexes)
    then none
    else some (record s { indexes = filter (λ x. not (x.name is n)) s.indexes })
apply (add_column n c) s =
    if not (has_table n s.tables) || has_column n c.name s.tables || not (type_known s.types c.type)
    then none
    else some (record s { tables = update_where (λ t. t.name is n) (add_to c) s.tables })
apply (drop_column n c) s =
    if not (has_column n c s.tables) || any_refers_column n c s.tables
    then none
    else some (record s {
      tables = update_where (λ t. t.name is n) (drop_from c) s.tables;
      indexes = filter (λ x. not ((x.table is n) && index_reads c x)) s.indexes;
    })

-- The statements of one migration, in order; the server runs them in one transaction.
unfoldable pub run : List Statement → Schema → Option Schema
run [] s = some s
run (st ∷ sts) s = elim (apply st s) [ none ↦ none | some t ↦ run sts t ]
