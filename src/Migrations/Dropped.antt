-- ===== src/Migrations/Dropped.antt =====
-- What a column dropped from a table changes, and what it leaves.
use issueflow.Prelude.{
  String, ◌≡◌, refl, true, false, not, ◌&&◌, List, [], ◌∷◌, filter, any, update_where, arith,
}
use issueflow.Migrations.Sql.{
  ◌is◌, Table, Column, has_table, has_column, any_refers, any_refers_column, constrains, drop_from,
  type_uses, uses_type, any_column_uses, refers, refers_column, column_named, column_of,
}
use issueflow.Migrations.Lists.{any-filter, any-filter_hit, any-filter_not}

named-filter :
    (d c : String) (cs : List Column)
    → d is c ≡ false
    → column_named d cs ≡ true
    → column_named d (filter (λ k. not (k.name is c)) cs) ≡ true
unfolding column_named
named-filter d c cs u h = any-filter_hit _ _ cs (λ k e. ground arith) h

module _ (n c : String) where
  abbrev pub dropped : List Table → List Table
  dropped ts = update_where (λ t. t.name is n) (drop_from c) ts

  pub has_table-dropped : (m : String) (ts : List Table) → has_table m (dropped ts) ≡ has_table m ts
  unfolding has_table update_where any drop_from
  has_table-dropped m [] = refl
  has_table-dropped m (t ∷ ts) = ground (arith, has_table-dropped m ts)

  pub any_refers-dropped :
      (m : String) (ts : List Table) → any_refers m (dropped ts) ≡ true → any_refers m ts ≡ true
  unfolding any_refers update_where any drop_from
  any_refers-dropped m [] h = cc
  any_refers-dropped m (t ∷ ts) h = ground (
    arith,
    any_refers-dropped m ts,
    any-filter (refers m) (λ k. not (column_of k is c)) t.constraints,
  )

  pub any_refers_column-dropped :
      (m d : String) (ts : List Table)
      → any_refers_column m d (dropped ts) ≡ true
      → any_refers_column m d ts ≡ true
  unfolding any_refers_column update_where any drop_from
  any_refers_column-dropped m d [] h = cc
  any_refers_column-dropped m d (t ∷ ts) h = ground (
    arith,
    any_refers_column-dropped m d ts,
    any-filter (refers_column m d) (λ k. not (column_of k is c)) t.constraints,
  )

  pub any_column_uses-dropped :
      (m : String) (ts : List Table)
      → any_column_uses m (dropped ts) ≡ true
      → any_column_uses m ts ≡ true
  unfolding any_column_uses uses_type update_where any drop_from
  any_column_uses-dropped m [] h = cc
  any_column_uses-dropped m (t ∷ ts) h = ground (
    arith,
    any_column_uses-dropped m ts,
    any-filter (λ k. type_uses m k.type) (λ k. not (k.name is c)) t.columns,
  )

  pub constrains-dropped :
      (m d : String) (ts : List Table)
      → constrains m d (dropped ts) ≡ true
      → constrains m d ts ≡ true
  unfolding constrains update_where any drop_from
  constrains-dropped m d [] h = cc
  constrains-dropped m d (t ∷ ts) h = ground (
    arith,
    constrains-dropped m d ts,
    any-filter (λ k. column_of k is d) (λ k. not (column_of k is c)) t.constraints,
  )

  pub constrains-dropped_none : (ts : List Table) → constrains n c (dropped ts) ≡ false
  unfolding constrains update_where any drop_from
  constrains-dropped_none [] = refl
  constrains-dropped_none (t ∷ ts) =
      let none_left =
        any-filter_not (λ k. column_of k is c) (λ k. not (column_of k is c)) t.constraints
          (λ k h. ground arith) in
      ground (arith, constrains-dropped_none ts, none_left)

  pub has_column-dropped :
      (m d : String) (ts : List Table)
      → ((m is n) && (d is c)) ≡ false
      → has_column m d ts ≡ true
      → has_column m d (dropped ts) ≡ true
  unfolding has_column update_where any drop_from
  has_column-dropped m d [] u h = cc
  has_column-dropped m d (t ∷ ts) u h =
      ground (arith, has_column-dropped m d ts u, named-filter d c t.columns)
