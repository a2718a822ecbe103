-- ===== src/Migrations/RoundTrip.antt =====
-- Reverting migrations: the statements of `down` take back those of `up`, in the opposite order.
use issueflow.Prelude.{
  ◌≡◌, refl, Bool, true, ◌&&◌, some, List, [], ◌∷◌, ◌++◌, Option-cases, inl, inr, All, arith, ◌∙◌,
  sym,
}
use mathlib.Core.Path.{subst}
use issueflow.Migrations.Sql.{Schema, Statement, apply, run}
use issueflow.Migrations.Sound.{Sound}
use issueflow.Migrations.Keeping.{apply-Sound}
use issueflow.Migrations.Reverting.{creates, undo, apply-undo}
use issueflow.Migrations.Steps.{
  Migration, create_users, create_invalidated_tokens, create_projects, create_tickets,
  create_comments, create_audit_log, create_ticket_dependencies, create_attachments,
  add_comment_version, drop_ticket_auto_escalation_paused, add_soft_delete_to_cascade_children,
  add_deleted_by_cascade_to_children, up, down, migrate, revert,
}

-- No statement drops anything.
abbrev pub only_creates : List Statement → Bool
only_creates [] = true
only_creates (st ∷ sts) = creates st && only_creates sts

-- The statements that take a run back.
abbrev undo_all : List Statement → List Statement
undo_all [] = []
undo_all (st ∷ sts) = undo_all sts ++ (undo st ∷ [])

down-undo_all : (m : Migration) → only_creates (up m) ≡ true → down m ≡ undo_all (up m)
unfolding up down
down-undo_all create_users h = refl
down-undo_all create_invalidated_tokens h = refl
down-undo_all create_projects h = refl
down-undo_all create_tickets h = refl
down-undo_all create_comments h = refl
down-undo_all create_audit_log h = refl
down-undo_all create_ticket_dependencies h = refl
down-undo_all create_attachments h = refl
down-undo_all add_comment_version h = refl
down-undo_all drop_ticket_auto_escalation_paused h = cc
down-undo_all add_soft_delete_to_cascade_children h = refl
down-undo_all add_deleted_by_cascade_to_children h = refl

-- A run of statements is one of the first of them and then one of the rest.
run-append :
    (sts : List Statement) (st : Statement) (s : Schema) {t : Schema}
    → run sts s ≡ some t
    → run (sts ++ (st ∷ [])) s ≡ apply st t
unfolding run
run-append [] st s {t} h = elim (Option-cases (apply st t)) [
  | inl e ↦ ground arith
  | inr (r, e) ↦ ground arith
]
run-append (x ∷ sts) st s {t} h = elim (Option-cases (apply x s)) [
  | inl e ↦ ground arith
  | inr (m, e) ↦ ground (arith, run-append sts st m {t = t})
]

-- A run of one statement and more passes through the schema after the first.
run-cons :
    (st : Statement) (sts : List Statement) (s : Schema) {t : Schema}
    → run (st ∷ sts) s ≡ some t
    → (m : Schema) × (apply st s ≡ some m) × (run sts m ≡ some t)
unfolding run
run-cons st sts s {t} h = elim (Option-cases (apply st s)) [
  | inl e ↦ ground arith
  | inr (m, e) ↦ (m, e, ground arith)
]

run-Sound :
    (sts : List Statement) (s : Schema) {t : Schema} → Sound s → run sts s ≡ some t → Sound t
unfolding run
run-Sound [] s {t} ok h = subst Sound (ground arith) ok
run-Sound (st ∷ sts) s {t} ok h =
    let (m, first, rest) = run-cons st sts s h in run-Sound sts m (apply-Sound st s ok first) rest

run-undo_all :
    (sts : List Statement) (s : Schema) {t : Schema}
    → only_creates sts ≡ true
    → Sound s
    → run sts s ≡ some t
    → run (undo_all sts) t ≡ some s
unfolding run
run-undo_all [] s {t} k ok h = sym h
run-undo_all (st ∷ sts) s {t} k ok h =
    let (m, first, rest) = run-cons st sts s h in
    let back = run-undo_all sts m (ground arith) (apply-Sound st s ok first) rest in
    run-append (undo_all sts) (undo st) t back ∙ apply-undo s ok st (ground arith) first

-- A schema in which nothing refers to what is not there comes back when migrations that only
-- create have run on it, in any number and order, and are reverted from the last one.
pub revert-migrate :
    (ms : List Migration) (s : Schema) {t : Schema}
    → All (λ m. only_creates (up m) ≡ true) ms
    → Sound s
    → migrate ms s ≡ some t
    → revert ms t ≡ some s
unfolding migrate revert
revert-migrate [] s {t} k ok h = sym h
revert-migrate (m ∷ ms) s {t} (k, ks) ok h = elim (Option-cases (run (up m) s)) [
  | inl e ↦ ground arith
  | inr (r, e) ↦
      let back = revert-migrate ms r {t = t} ks (run-Sound (up m) s ok e) (ground arith) in
      let undone = run-undo_all (up m) s k ok e in rw (back, down-undo_all m k, undone)
]
