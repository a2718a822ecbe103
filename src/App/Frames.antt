-- ===== src/App/Frames.antt =====
-- The registered cascades change no ticket, and the registered resolver of assignees changes nothing.
use issueflow.Prelude.{
  arith, Option-cases, inl, inr, none, some, true, false, refl, ℕ, Option, List, is_empty, ◌||◌,
}
use issueflow.Entities.{Ticket, Comment}
use issueflow.Store.{Db, Env, ◌>>=◌, gets, modify, for_each}
use issueflow.Keeps.{
  Keeps, Keeps-pure, Keeps-bind, Keeps-if, Keeps-for_each, Keeps-gets, Keeps-modify,
  Keeps-audit_rows,
}
use issueflow.Mentions
use issueflow.Users
use issueflow.Comments.Base.{insert_mentions}
use issueflow.Comments.Cascade.{
  cascade_soft_delete_comments, cascade_restore_comments, mention_again,
}
use issueflow.Dependencies.{cascade_soft_delete_dependencies, cascade_restore_dependencies}
use issueflow.Attachments.{cascade_soft_delete_attachments, cascade_restore_attachments}
use issueflow.Tickets.Cascade.{
  run_cascade_soft_deletes, run_cascade_restores, run_handlers, registered,
}
use issueflow.Tickets.Create.{choose_assignee}
use issueflow.Tickets.Create.Laws.{IsReading}
use issueflow.AutoAssign.{pick_assignee, first_id, workload}
use issueflow.Tickets.Create.Succeeding.{Answers}
use issueflow.App.{app}

abbrev pub tickets_of : Db → List Ticket
tickets_of s = s.tickets

module _ (env : Env) (ids : List ℕ) (actor : Option ℕ) where
  comments_deleted-Keeps : Keeps tickets_of (cascade_soft_delete_comments env ids actor)
  unfolding cascade_soft_delete_comments
  comments_deleted-Keeps = Keeps-bind (gets _) _ (Keeps-gets _) λ rows.
      Keeps-if (is_empty ids || is_empty rows) _ _ (Keeps-pure tt) (
        Keeps-bind (modify _) _ (Keeps-modify _ (λ s. refl))
          (λ u. Keeps-audit_rows env _ rows (λ s l. refl)))

  dependencies_deleted-Keeps : Keeps tickets_of (cascade_soft_delete_dependencies env ids actor)
  unfolding cascade_soft_delete_dependencies
  dependencies_deleted-Keeps = Keeps-bind (gets _) _ (Keeps-gets _) λ rows.
      Keeps-if (is_empty ids || is_empty rows) _ _ (Keeps-pure tt) (
        Keeps-bind (modify _) _ (Keeps-modify _ (λ s. refl))
          (λ u. Keeps-audit_rows env _ rows (λ s l. refl)))

  attachments_deleted-Keeps : Keeps tickets_of (cascade_soft_delete_attachments env ids actor)
  unfolding cascade_soft_delete_attachments
  attachments_deleted-Keeps = Keeps-bind (gets _) _ (Keeps-gets _) λ rows.
      Keeps-if (is_empty ids || is_empty rows) _ _ (Keeps-pure tt) (
        Keeps-bind (modify _) _ (Keeps-modify _ (λ s. refl))
          (λ u. Keeps-audit_rows env _ rows (λ s l. refl)))

  dependencies_restored-Keeps : Keeps tickets_of (cascade_restore_dependencies env ids actor)
  unfolding cascade_restore_dependencies
  dependencies_restored-Keeps = Keeps-bind (gets _) _ (Keeps-gets _) λ rows.
      Keeps-if (is_empty ids || is_empty rows) _ _ (Keeps-pure tt) (
        Keeps-bind (modify _) _ (Keeps-modify _ (λ s. refl))
          (λ u. Keeps-audit_rows env _ rows (λ s l. refl)))

  attachments_restored-Keeps : Keeps tickets_of (cascade_restore_attachments env ids actor)
  unfolding cascade_restore_attachments
  attachments_restored-Keeps = Keeps-bind (gets _) _ (Keeps-gets _) λ rows.
      Keeps-if (is_empty ids || is_empty rows) _ _ (Keeps-pure tt) (
        Keeps-bind (modify _) _ (Keeps-modify _ (λ s. refl))
          (λ u. Keeps-audit_rows env _ rows (λ s l. refl)))

  mention_again-Keeps : (c : Comment) → Keeps tickets_of (mention_again env c)
  unfolding mention_again Mentions.resolve Users.find_by_usernames_case_insensitive insert_mentions
      ◌>>=◌
  mention_again-Keeps c = record { at = λ s. ground arith }

  comments_restored-Keeps : Keeps tickets_of (cascade_restore_comments env ids actor)
  unfolding cascade_restore_comments
  comments_restored-Keeps = Keeps-bind (gets _) _ (Keeps-gets _) λ rows.
      Keeps-if (is_empty ids || is_empty rows) _ _ (Keeps-pure tt) (
        Keeps-bind (modify _) _ (Keeps-modify _ (λ s. refl)) (λ u.
          Keeps-bind (for_each (mention_again env) rows) _
            (Keeps-for_each _ rows (λ c. mention_again-Keeps c))
            (λ v. Keeps-audit_rows env _ rows (λ s l. refl))))

  -- Deleting the tickets' comments, dependencies and attachments changes no ticket.
  pub deletes-Keeps : Keeps tickets_of (run_cascade_soft_deletes env (app env).cascade ids actor)
  unfolding run_cascade_soft_deletes run_handlers registered app for_each
  deletes-Keeps = Keeps-if (is_empty ids) _ _ (Keeps-pure tt) (
      Keeps-bind _ _ comments_deleted-Keeps (λ u.
        Keeps-bind _ _ dependencies_deleted-Keeps
          (λ v. Keeps-bind _ _ attachments_deleted-Keeps (λ w. Keeps-pure tt))))

  -- Restoring them changes no ticket.
  pub restores-Keeps : Keeps tickets_of (run_cascade_restores env (app env).cascade ids actor)
  unfolding run_cascade_restores run_handlers registered app for_each
  restores-Keeps = Keeps-if (is_empty ids) _ _ (Keeps-pure tt) (
      Keeps-bind _ _ comments_restored-Keeps (λ u.
        Keeps-bind _ _ dependencies_restored-Keeps
          (λ v. Keeps-bind _ _ attachments_restored-Keeps (λ w. Keeps-pure tt))))

-- Choosing an assignee only reads.
pub app-IsReading : (env : Env) → IsReading env (app env)
unfolding app choose_assignee pick_assignee ◌>>=◌
app-IsReading env dto s = ground arith

-- Choosing an assignee always answers.
pub app-Answers : (env : Env) → Answers env (app env)
unfolding app choose_assignee pick_assignee ◌>>=◌
app-Answers env dto s = elim (Option-cases dto.assignee_id) [
  | inl unasked ↦ elim (Option-cases (first_id (workload dto.project_id s))) [
    | inl alone ↦ ((none, false), ground arith)
    | inr (id, picked) ↦ ((some id, true), ground arith)
  ]
  | inr (id, asked) ↦ ((some id, false), ground arith)
]
