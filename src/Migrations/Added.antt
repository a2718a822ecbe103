-- ===== src/Migrations/Added.antt =====
-- What a column added to a table changes, and what it leaves.
use issueflow.Prelude.{String, ◌≡◌, refl, true, ◌||◌, List, [], ◌∷◌, ◌++◌, any, update_where, arith}
use issueflow.Migrations.Sql.{
  ◌is◌, Table, Column, has_table, has_column, any_refers, any_refers_column, constrains, add_to,
  type_uses, uses_type, any_column_uses, column_named,
}

named-append : (c : Column) (cs : List Column) → column_named c.name (cs ++ (c ∷ [])) ≡ true
unfolding column_named any
named-append c [] = ground arith
named-append c (d ∷ cs) = ground (arith, named-append c cs)

named-append_mono :
    (d : String) (c : Column) (cs : List Column)
    → column_named d cs ≡ true
    → column_named d (cs ++ (c ∷ [])) ≡ true
unfolding column_named any
named-append_mono d c [] h = cc
named-append_mono d c (e ∷ cs) h = ground (arith, named-append_mono d c cs)

uses_type-append :
    (m : String) (c : Column) (cs : List Column)
    → uses_type m (cs ++ (c ∷ [])) ≡ true
    → (uses_type m cs || type_uses m c.type) ≡ true
unfolding uses_type any
uses_type-append m c [] h = ground arith
uses_type-append m c (e ∷ cs) h = ground (arith, uses_type-append m c cs)

module _ (n : String) (c : Column) where
  abbrev pub added : List Table → List Table
  added ts = update_where (λ t. t.name is n) (add_to c) ts

  pub has_column-added :
      (ts : List Table) → has_table n ts ≡ true → has_column n c.name (added ts) ≡ true
  unfolding has_table has_column update_where any add_to
  has_column-added [] h = cc
  has_column-added (t ∷ ts) h = ground (arith, has_column-added ts, named-append c t.columns)

  pub any_refers_column-added :
      (m d : String) (ts : List Table) → any_refers_column m d (added ts) ≡ any_refers_column m d ts
  unfolding any_refers_column update_where any add_to
  any_refers_column-added m d [] = refl
  any_refers_column-added m d (t ∷ ts) = ground (arith, any_refers_column-added m d ts)

  pub has_table-added : (m : String) (ts : List Table) → has_table m (added ts) ≡ has_table m ts
  unfolding has_table update_where any add_to
  has_table-added m [] = refl
  has_table-added m (t ∷ ts) = ground (arith, has_table-added m ts)

  pub any_refers-added : (m : String) (ts : List Table) → any_refers m (added ts) ≡ any_refers m ts
  unfolding any_refers update_where any add_to
  any_refers-added m [] = refl
  any_refers-added m (t ∷ ts) = ground (arith, any_refers-added m ts)

  pub constrains-added :
      (m d : String) (ts : List Table) → constrains m d (added ts) ≡ constrains m d ts
  unfolding constrains update_where any add_to
  constrains-added m d [] = refl
  constrains-added m d (t ∷ ts) = ground (arith, constrains-added m d ts)

  pub has_column-added_mono :
      (m d : String) (ts : List Table) → has_column m d ts ≡ true → has_column m d (added ts) ≡ true
  unfolding has_column update_where any add_to
  has_column-added_mono m d [] h = cc
  has_column-added_mono m d (t ∷ ts) h =
      ground (arith, has_column-added_mono m d ts, named-append_mono d c t.columns)

  pub any_column_uses-added :
      (m : String) (ts : List Table)
      → any_column_uses m (added ts) ≡ true
      → (any_column_uses m ts || type_uses m c.type) ≡ true
  unfolding any_column_uses update_where any add_to
  any_column_uses-added m [] h = cc
  any_column_uses-added m (t ∷ ts) h =
      ground (arith, any_column_uses-added m ts, uses_type-append m c t.columns)
