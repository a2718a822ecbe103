-- ===== src/Migrations/Keeping/Creating.antt =====
-- Creating a type, a table or an index keeps a schema sound.
use issueflow.Prelude.{String, ◌≡◌, true, false, not, ◌&&◌, some, List, [], ◌∷◌, any, arith}
use mathlib.Core.Path.{subst}
use issueflow.Migrations.Sql.{
  ◌is◌, Schema, Index, Table, Column, Constraint, primary_key, foreign_key, EnumType, ColumnType,
  type_known, type_uses, serial, int, text, boolean, jsonb, bytea, uuid, timestamp, timestamptz,
  varchar, create_type, create_table, create_index, has_type, has_table, has_column, uses_type,
  any_column_uses, any_refers, any_refers_column, refers, refers_column, constrains, reads_column,
  apply, all_known, all_fit, all_named, column_named, column_of, string_in, enum_type,
}
use issueflow.Migrations.Sound.{Sound, indexed}
use issueflow.Migrations.Reverting.{if_some}
use issueflow.Migrations.Lists.{any_mono}

has_column-has_table :
    (n c : String) (ts : List Table) → has_column n c ts ≡ true → has_table n ts ≡ true
unfolding has_column has_table
has_column-has_table n c ts h = any_mono _ _ ts (λ t k. ground arith) h

pub type_known_lem :
    (es : List EnumType) (n : String) (ty : ColumnType)
    → type_known es ty ≡ true
    → type_uses n ty ≡ true
    → has_type n es ≡ true
type_known_lem es n (enum_type m) h k = ground arith
type_known_lem es n serial h k = cc
type_known_lem es n int h k = cc
type_known_lem es n text h k = cc
type_known_lem es n boolean h k = cc
type_known_lem es n jsonb h k = cc
type_known_lem es n bytea h k = cc
type_known_lem es n uuid h k = cc
type_known_lem es n timestamp h k = cc
type_known_lem es n timestamptz h k = cc
type_known_lem es n (varchar _) h k = cc

all_known_lem :
    (es : List EnumType) (n : String) (cs : List Column)
    → all_known es cs ≡ true
    → uses_type n cs ≡ true
    → has_type n es ≡ true
unfolding all_known uses_type any
all_known_lem es n [] h k = cc
all_known_lem es n (c ∷ cs) h k = ground (arith, all_known_lem es n cs, type_known_lem es n c.type)

module _ (cs : List Column) (ts : List Table) where
  all_fit-refers_column :
      (n c : String) (ks : List Constraint)
      → all_fit cs ts ks ≡ true
      → any (refers_column n c) ks ≡ true
      → has_column n c ts ≡ true
  unfolding all_fit any
  all_fit-refers_column n c [] h k = cc
  all_fit-refers_column n c (primary_key m d ∷ ks) h k =
      ground (arith, all_fit-refers_column n c ks)
  all_fit-refers_column n c (foreign_key m e l d o ∷ ks) h k =
      ground (arith, all_fit-refers_column n c ks)

  all_fit-refers :
      (n : String) (ks : List Constraint)
      → all_fit cs ts ks ≡ true
      → any (refers n) ks ≡ true
      → has_table n ts ≡ true
  unfolding all_fit any
  all_fit-refers n [] h k = cc
  all_fit-refers n (primary_key m d ∷ ks) h k = ground (arith, all_fit-refers n ks)
  all_fit-refers n (foreign_key m e l d o ∷ ks) h k =
      ground (arith, all_fit-refers n ks, has_column-has_table n d ts)

  all_fit-column_of :
      (c : String) (ks : List Constraint)
      → all_fit cs ts ks ≡ true
      → any (λ k. column_of k is c) ks ≡ true
      → column_named c cs ≡ true
  unfolding all_fit any
  all_fit-column_of c [] h k = cc
  all_fit-column_of c (primary_key m d ∷ ks) h k = ground (arith, all_fit-column_of c ks)
  all_fit-column_of c (foreign_key m e l d o ∷ ks) h k = ground (arith, all_fit-column_of c ks)

all_named_lem :
    (ts : List Table) (n c : String) (ds : List String)
    → all_named n ts ds ≡ true
    → string_in ds c ≡ true
    → has_column n c ts ≡ true
unfolding all_named string_in any
all_named_lem ts n c [] h k = cc
all_named_lem ts n c (d ∷ ds) h k = ground (arith, all_named_lem ts n c ds)

module _ (s : Schema) (ok : Sound s) where
  pub create_type-Sound : (e : EnumType) {t : Schema} → apply (create_type e) s ≡ some t → Sound t
  unfolding apply has_type any
  create_type-Sound e {t} h =
      let g = if_some _ (record s { types = e ∷ s.types }) t h in
      subst Sound g.1 (record {
        types = λ n u. ground (arith, ok.types n);
        tables = ok.tables;
        indexes = ok.indexes;
        targets = ok.targets;
        constraints = ok.constraints;
        columns = ok.columns;
      })

  pub create_table-Sound : (a : Table) {t : Schema} → apply (create_table a) s ≡ some t → Sound t
  unfolding apply has_table has_column any_column_uses any_refers any_refers_column constrains any
  create_table-Sound a {t} h =
      let g = if_some _ (record s { tables = a ∷ s.tables }) t h in
      let known : all_known s.types a.columns ≡ true = ground arith in
      let fits : all_fit a.columns (a ∷ s.tables) a.constraints ≡ true = ground arith in
      subst Sound g.1 (record {
        types = λ n u. ground (arith, ok.types n, all_known_lem s.types n a.columns known);
        tables = λ n u.
            ground
              (arith, ok.tables n, all_fit-refers a.columns (a ∷ s.tables) n a.constraints fits);
        indexes = λ n u. ground (arith, ok.indexes n);
        targets = λ n c u. ground (
          arith,
          ok.targets n c,
          all_fit-refers_column a.columns (a ∷ s.tables) n c a.constraints fits,
        );
        constraints = λ n c u. ground (
          arith,
          ok.constraints n c,
          all_fit-column_of a.columns (a ∷ s.tables) c a.constraints fits,
        );
        columns = λ n c u. ground (arith, ok.columns n c);
      })

  pub create_index-Sound : (x : Index) {t : Schema} → apply (create_index x) s ≡ some t → Sound t
  unfolding apply indexed reads_column any
  create_index-Sound x {t} h =
      let g = if_some _ (record s { indexes = x ∷ s.indexes }) t h in
      let there : has_table x.table s.tables ≡ true = ground arith in
      let named : all_named x.table s.tables x.columns ≡ true = ground arith in
      let live : (x.live_only && not (has_column x.table "deletedAt" s.tables)) ≡ false =
        ground arith in
      subst Sound g.1 (record {
        types = ok.types;
        tables = ok.tables;
        indexes = λ n u. ground (arith, ok.indexes n);
        targets = ok.targets;
        constraints = ok.constraints;
        columns = λ n c u. ground (arith, ok.columns n c, all_named_lem s.tables n c x.columns);
      })
