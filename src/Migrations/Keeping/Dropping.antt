-- ===== src/Migrations/Keeping/Dropping.antt =====
-- Dropping a type, a table or an index keeps a schema sound.
use issueflow.Prelude.{String, ◌≡◌, true, false, not, ◌&&◌, some, List, filter, any, arith}
use mathlib.Core.Path.{subst}
use issueflow.Migrations.Sql.{
  ◌is◌, Schema, Table, Constraint, primary_key, foreign_key, drop_type, drop_table, drop_index,
  has_type, has_table, has_column, any_column_uses, any_refers, any_refers_column, refers,
  refers_column, constrains, reads_column, apply, index_reads, column_of,
}
use issueflow.Migrations.Sound.{Sound, indexed}
use issueflow.Migrations.Reverting.{if_some}
use issueflow.Migrations.Lists.{any-filter, any-filter_hit, any-filter_not, any_mono}

refers_column-refers :
    (n c : String) (k : Constraint) → refers_column n c k ≡ true → refers n k ≡ true
refers_column-refers n c (primary_key m d) h = cc
refers_column-refers n c (foreign_key m e l d o) h = ground arith

any_refers_column-any_refers :
    (n c : String) (ts : List Table) → any_refers_column n c ts ≡ true → any_refers n ts ≡ true
unfolding any_refers_column any_refers
any_refers_column-any_refers n c ts h =
    any_mono _ _ ts (λ t k. any_mono _ _ t.constraints (refers_column-refers n c) k) h

-- The tables without those named `n`.
abbrev without : String → List Table → List Table
without n ts = filter (λ t. not (t.name is n)) ts

module _ (n m : String) (ts : List Table) (differ : m is n ≡ false) where
  has_table-without : has_table m ts ≡ true → has_table m (without n ts) ≡ true
  unfolding has_table
  has_table-without h = any-filter_hit _ _ ts (λ t k. ground arith) h

  has_column-without :
      (c : String) → has_column m c ts ≡ true → has_column m c (without n ts) ≡ true
  unfolding has_column
  has_column-without c h = any-filter_hit _ _ ts (λ t k. ground arith) h

module _ (s : Schema) (ok : Sound s) where
  pub drop_index-Sound : (n : String) {t : Schema} → apply (drop_index n) s ≡ some t → Sound t
  unfolding apply indexed reads_column
  drop_index-Sound n {t} h =
      let g = if_some _ (record s { indexes = filter (λ x. not (x.name is n)) s.indexes }) t h in
      subst Sound g.1 (record {
        types = ok.types;
        tables = ok.tables;
        indexes = λ m u. ok.indexes m (any-filter _ _ s.indexes u);
        targets = ok.targets;
        constraints = ok.constraints;
        columns = λ m c u. ok.columns m c (any-filter _ _ s.indexes u);
      })

  pub drop_type-Sound : (n : String) {t : Schema} → apply (drop_type n) s ≡ some t → Sound t
  unfolding apply has_type
  drop_type-Sound n {t} h =
      let g = if_some _ (record s { types = filter (λ e. not (e.name is n)) s.types }) t h in
      let unused : any_column_uses n s.tables ≡ false = ground arith in
      subst Sound g.1 (record {
        types =
            λ m u. any-filter_hit (λ e. e.name is m) _ s.types (λ e k. ground arith) (ok.types m u);
        tables = ok.tables;
        indexes = ok.indexes;
        targets = ok.targets;
        constraints = ok.constraints;
        columns = ok.columns;
      })

  pub drop_table-Sound : (n : String) {t : Schema} → apply (drop_table n) s ≡ some t → Sound t
  unfolding apply has_table has_column any_column_uses any_refers any_refers_column constrains
      indexed reads_column
  drop_table-Sound n {t} h =
      let ts = filter (λ a. not (a.name is n)) s.tables in
      let xs = filter (λ x. not (x.table is n)) s.indexes in
      let g = if_some _ (record s { tables = ts; indexes = xs }) t h in
      let unused : any_refers n ts ≡ false = ground arith in
      subst Sound g.1 (record {
        types = λ m u. ok.types m (any-filter _ _ s.tables u);
        tables = λ m u.
            has_table-without n m s.tables (ground arith) (ok.tables m (any-filter _ _ s.tables u));
        indexes = λ m u.
            let gone =
              any-filter_not (λ x. x.table is n) (λ x. not (x.table is n)) s.indexes
                (λ x k. ground arith) in
            has_table-without n m s.tables (ground arith)
              (ok.indexes m (any-filter _ _ s.indexes u));
        targets = λ m c u.
            let refers_m = any_refers_column-any_refers m c ts u in
            has_column-without n m s.tables (ground arith) c
              (ok.targets m c (any-filter _ _ s.tables u));
        constraints = λ m c u.
            let gone =
              any-filter_not (λ a. (a.name is n) && any (λ k. column_of k is c) a.constraints)
                (λ a. not (a.name is n)) s.tables (λ x k. ground arith) in
            has_column-without n m s.tables (ground arith) c
              (ok.constraints m c (any-filter _ _ s.tables u));
        columns = λ m c u.
            let gone =
              any-filter_not (λ x. (x.table is n) && index_reads c x) (λ x. not (x.table is n))
                s.indexes (λ x k. ground arith) in
            has_column-without n m s.tables (ground arith) c
              (ok.columns m c (any-filter _ _ s.indexes u));
      })
