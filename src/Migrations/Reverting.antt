-- ===== src/Migrations/Reverting.antt =====
-- Reverting a statement that creates something: the dropping statement gives the schema back.
use issueflow.Prelude.{
  String, ◌≡◌, refl, Bool, true, false, not, ◌&&◌, ◌||◌, none, some, List, [], ◌∷◌, ◌++◌, filter,
  any, update_where, if◌then◌else◌, arith,
}
use issueflow.Migrations.Sql.{
  ◌is◌, Schema, Index, Table, Column, Statement, EnumType, create_type, drop_type, create_table,
  drop_table, create_index, drop_index, add_column, drop_column, has_type, has_table, has_column,
  constrains, reads_column, has_index, apply, type_taken, relation_taken, index_reads, add_to,
  drop_from, column_named, column_of,
}
use mathlib.Core.Path.{subst}
use issueflow.Migrations.Added.{added, has_column-added, any_refers_column-added}
use issueflow.Migrations.Sound.{Sound, indexed}

abbrev pub creates : Statement → Bool
creates (create_type _) = true
creates (create_table _) = true
creates (create_index _) = true
creates (add_column _ _) = true
creates _ = false

abbrev pub undo : Statement → Statement
undo (create_type e) = drop_type e.name
undo (create_table t) = drop_table t.name
undo (create_index x) = drop_index x.name
undo (add_column n c) = drop_column n c.name
undo st = st

filter-none_hit :
    {A : Type 0} (p : A → Bool) (xs : List A) → any p xs ≡ false → filter (λ x. not (p x)) xs ≡ xs
unfolding filter any
filter-none_hit p [] h = refl
filter-none_hit p (x ∷ xs) h = ground (arith, filter-none_hit p xs)

is_refl : (n : String) → n is n ≡ true
is_refl n = ground arith

filter-head :
    {A : Type 0} (p : A → Bool) (x : A) (xs : List A)
    → p x ≡ true
    → any p xs ≡ false
    → filter (λ y. not (p y)) (x ∷ xs) ≡ xs
unfolding filter
filter-head p x xs h k = rw h (filter-none_hit p xs k)

absent : {a b : Bool} → (a ≡ true → b ≡ true) → b ≡ false → a ≡ false
absent {a} {b} f h = ground (arith, f)

pub if_some :
    {A : Type 0} (b : Bool) (x y : A)
    → (if b then none else some x) ≡ some y
    → (b ≡ false) × (x ≡ y)
if_some b x y h = ground arith

no_or : (a b : Bool) → (a || b) ≡ false → (a ≡ false) × (b ≡ false)
no_or a b h = ground arith

filter-append :
    (c : Column) (cs : List Column)
    → column_named c.name cs ≡ false
    → filter (λ d. not (d.name is c.name)) (cs ++ (c ∷ [])) ≡ cs
unfolding column_named filter any
filter-append c [] h = ground arith
filter-append c (d ∷ cs) h = ground (arith, filter-append c cs)

drop_from-add_to :
    (c : Column) (t : Table)
    → column_named c.name t.columns ≡ false
    → any (λ k. column_of k is c.name) t.constraints ≡ false
    → drop_from c.name (add_to c t) ≡ t
unfolding drop_from add_to
drop_from-add_to c t h k =
    rw (filter-append c t.columns h, filter-none_hit (λ k. column_of k is c.name) t.constraints k)

module _ (n : String) (c : Column) where
  drop-added :
      (ts : List Table)
      → has_column n c.name ts ≡ false
      → constrains n c.name ts ≡ false
      → update_where (λ t. t.name is n) (drop_from c.name) (added n c ts) ≡ ts
  unfolding has_column constrains update_where any add_to
  drop-added [] h k = refl
  drop-added (t ∷ ts) h k = ground (arith, drop-added ts, drop_from-add_to c t)

module _ (s : Schema) (ok : Sound s) where
  apply-create_type :
      (e : EnumType) {t : Schema}
      → apply (create_type e) s ≡ some t
      → apply (drop_type e.name) t ≡ some s
  unfolding apply type_taken has_type any
  apply-create_type e {t} h =
      let g = if_some (type_taken e.name s) (record s { types = e ∷ s.types }) t h in
      let free : has_type e.name s.types ≡ false = ground arith in
      let unused = absent (ok.types e.name) free in
      let here = is_refl e.name in
      let kept = filter-head (λ d. d.name is e.name) e s.types here free in
      subst (λ r. apply (drop_type e.name) r ≡ some s) g.1 (rw (here, unused, kept))

  apply-create_table :
      (a : Table) {t : Schema}
      → apply (create_table a) s ≡ some t
      → apply (drop_table a.name) t ≡ some s
  unfolding apply type_taken indexed has_table any
  apply-create_table a {t} h =
      let g = if_some _ (record s { tables = a ∷ s.tables }) t h in
      let free : has_table a.name s.tables ≡ false = ground arith in
      let unused = absent (ok.tables a.name) free in
      let here = is_refl a.name in
      let kept = filter-head (λ d. d.name is a.name) a s.tables here free in
      let bare =
        filter-none_hit (λ x. x.table is a.name) s.indexes (absent (ok.indexes a.name) free) in
      subst (λ r. apply (drop_table a.name) r ≡ some s) g.1 (rw (here, kept, unused, bare))

  apply-create_index :
      (x : Index) {t : Schema}
      → apply (create_index x) s ≡ some t
      → apply (drop_index x.name) t ≡ some s
  unfolding apply relation_taken has_index any
  apply-create_index x {t} h =
      let g = if_some _ (record s { indexes = x ∷ s.indexes }) t h in
      let free : has_index x.name s.indexes ≡ false = ground arith in
      let here = is_refl x.name in
      let kept = filter-head (λ d. d.name is x.name) x s.indexes here free in
      subst (λ r. apply (drop_index x.name) r ≡ some s) g.1 (rw (here, kept))

  apply-add_column :
      (n : String) (c : Column) {t : Schema}
      → apply (add_column n c) s ≡ some t
      → apply (drop_column n c.name) t ≡ some s
  unfolding apply any reads_column
  apply-add_column n c {t} h =
      let g = if_some _ (record s { tables = added n c s.tables }) t h in
      let there : has_table n s.tables ≡ true = ground arith in
      let fresh : has_column n c.name s.tables ≡ false = ground arith in
      let gone = drop-added n c s.tables fresh (absent (ok.constraints n c.name) fresh) in
      let has = has_column-added n c s.tables there in
      let same = any_refers_column-added n c n c.name s.tables in
      let unused = absent (ok.targets n c.name) fresh in
      let kept =
        filter-none_hit (λ x. (x.table is n) && index_reads c.name x) s.indexes
          (absent (ok.columns n c.name) fresh) in
      subst (λ r. apply (drop_column n c.name) r ≡ some s) g.1
        (rw (apply, has, same, unused, gone, kept))

  pub apply-undo :
      (st : Statement) {t : Schema}
      → creates st ≡ true
      → apply st s ≡ some t
      → apply (undo st) t ≡ some s
  apply-undo (create_type e) k h = apply-create_type e h
  apply-undo (create_table a) k h = apply-create_table a h
  apply-undo (create_index x) k h = apply-create_index x h
  apply-undo (add_column n c) k h = apply-add_column n c h
  apply-undo (drop_type _) k h = cc
  apply-undo (drop_table _) k h = cc
  apply-undo (drop_index _) k h = cc
  apply-undo (drop_column _ _) k h = cc
