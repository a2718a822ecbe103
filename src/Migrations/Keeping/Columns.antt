-- ===== src/Migrations/Keeping/Columns.antt =====
-- Adding and dropping a column keeps a schema sound.
use issueflow.Prelude.{String, ◌≡◌, true, false, not, ◌&&◌, some, filter, arith}
use mathlib.Core.Path.{subst}
use issueflow.Migrations.Sql.{
  ◌is◌, Schema, Column, type_known, add_column, drop_column, any_refers_column, reads_column, apply,
  index_reads,
}
use issueflow.Migrations.Sound.{Sound, indexed}
use issueflow.Migrations.Reverting.{if_some}
use issueflow.Migrations.Lists.{any-filter, any-filter_not}
use issueflow.Migrations.Added.{
  added, has_table-added, any_refers-added, any_refers_column-added, constrains-added,
  has_column-added_mono, any_column_uses-added,
}
use issueflow.Migrations.Dropped.{
  dropped, has_table-dropped, any_refers-dropped, any_refers_column-dropped, constrains-dropped,
  constrains-dropped_none, has_column-dropped, any_column_uses-dropped,
}
use issueflow.Migrations.Keeping.Creating.{type_known_lem}
use issueflow.Migrations.Lists.{any-filter, any-filter_not}

module _ (s : Schema) (ok : Sound s) where
  pub add_column-Sound :
      (n : String) (c : Column) {t : Schema} → apply (add_column n c) s ≡ some t → Sound t
  unfolding apply
  add_column-Sound n c {t} h =
      let ts = added n c s.tables in
      let g = if_some _ (record s { tables = ts }) t h in
      let known : type_known s.types c.type ≡ true = ground arith in
      let has = has_column-added_mono n c in
      subst Sound g.1 (record {
        types = λ m u. ground (
          arith,
          any_column_uses-added n c m s.tables u,
          ok.types m,
          type_known_lem s.types m c.type known,
        );
        tables = λ m u.
            rw (has_table-added n c m s.tables)
              (ok.tables m (rw (any_refers-added n c m s.tables) at u));
        indexes = λ m u. rw (has_table-added n c m s.tables) (ok.indexes m u);
        targets = λ m d u.
            has m d s.tables (ok.targets m d (rw (any_refers_column-added n c m d s.tables) at u));
        constraints = λ m d u.
            has m d s.tables (ok.constraints m d (rw (constrains-added n c m d s.tables) at u));
        columns = λ m d u. has m d s.tables (ok.columns m d u);
      })

  pub drop_column-Sound : (n c : String) {t : Schema} → apply (drop_column n c) s ≡ some t → Sound t
  unfolding apply reads_column indexed
  drop_column-Sound n c {t} h =
      let ts = dropped n c s.tables in
      let xs = filter (λ x. not ((x.table is n) && index_reads c x)) s.indexes in
      let g = if_some _ (record s { tables = ts; indexes = xs }) t h in
      let free : any_refers_column n c s.tables ≡ false = ground arith in
      let has = has_column-dropped n c in
      subst Sound g.1 (record {
        types = λ m u. ok.types m (any_column_uses-dropped n c m s.tables u);
        tables = λ m u.
            rw (has_table-dropped n c m s.tables)
              (ok.tables m (any_refers-dropped n c m s.tables u));
        indexes = λ m u.
            rw (has_table-dropped n c m s.tables) (ok.indexes m (any-filter _ _ s.indexes u));
        targets = λ m d u.
            let before = any_refers_column-dropped n c m d s.tables u in
            has m d s.tables (ground arith) (ok.targets m d before);
        constraints = λ m d u.
            let gone = constrains-dropped_none n c s.tables in
            has m d s.tables (ground arith)
              (ok.constraints m d (constrains-dropped n c m d s.tables u));
        columns = λ m d u.
            let gone =
              any-filter_not (λ x. (x.table is n) && index_reads c x)
                (λ x. not ((x.table is n) && index_reads c x)) s.indexes (λ x k. ground arith) in
            has m d s.tables (ground arith) (ok.columns m d (any-filter _ _ s.indexes u));
      })
