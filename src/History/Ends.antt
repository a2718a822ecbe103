-- ===== src/History/Ends.antt =====
-- The two tickets of every dependency.
use issueflow.Prelude.{
  ℕ, ◌≡◌, ◌≢◌, refl, ap, arith, ◌||◌, Bool, true, false, Bool-cases, inl, inr, Option, none, some,
  List, [], ◌∷◌, ◌++◌, map, filter, find_one, update_where, is_empty,
}
use mathlib.Core.Path.{ap₂}
use issueflow.Entities.{Ticket, TicketDependency}
use issueflow.Store.{Db, Env, gets, modify, for_each, or_raise, not_found}
use issueflow.Enums.{ticket_entity}
use issueflow.Audit.{AuditRecordInput, insert_row}
use issueflow.Keeps.{
  Keeps, Keeps-pure, Keeps-bind, Keeps-if, Keeps-gets, Keeps-modify, Keeps-audit_rows,
}
use issueflow.App.{app}
use issueflow.Tickets.Base.{Registered, is_ticket, assert_version_matches}
use issueflow.Tickets.Cascade.{run_cascade_soft_deletes, run_handlers, registered}
use issueflow.Tickets.Create.{CreateTicketDto, insert_ticket, auto_assign_row}
use issueflow.Tickets.Create.Laws.{IsReading}
use issueflow.Tickets.Remove
use issueflow.Comments.Cascade.{cascade_soft_delete_comments}
use issueflow.Dependencies
use issueflow.Dependencies.{cascade_soft_delete_dependencies}
use issueflow.Attachments.{cascade_soft_delete_attachments}

abbrev pub ends : TicketDependency → ℕ × ℕ
ends d = (d.ticket_id, d.blocked_by)

abbrev pub ends_of : Db → List (ℕ × ℕ)
ends_of s = map ends s.deps

-- Two different tickets of one project.
abbrev pub Joins : List Ticket → ℕ × ℕ → Type 0
Joins ts (a, b) =
    (a ≢ b)
    × (t : Ticket) × (u : Ticket) × (find_one (is_ticket a) ts ≡ some t)
    × (find_one (is_ticket b) ts ≡ some u)
    × (t.project_id ≡ u.project_id)

abbrev pub AllJoin : List Ticket → List (ℕ × ℕ) → Type 0
AllJoin ts [] = Unit
AllJoin ts (e ∷ es) = Joins ts e × AllJoin ts es

pub AllJoin-append_one :
    (ts : List Ticket) (ds : List TicketDependency) (d : TicketDependency)
    → AllJoin ts (map ends ds)
    → Joins ts (ends d)
    → AllJoin ts (map ends (ds ++ d ∷ []))
AllJoin-append_one ts [] d a j = (j, tt)
AllJoin-append_one ts (x ∷ xs) d a j = (a.0, AllJoin-append_one ts xs d a.1 j)

pub AllJoin-filter :
    (ts : List Ticket) (p : TicketDependency → Bool) (ds : List TicketDependency)
    → AllJoin ts (map ends ds)
    → AllJoin ts (map ends (filter p ds))
unfolding filter
AllJoin-filter ts p [] a = tt
AllJoin-filter ts p (d ∷ ds) a = elim (Bool-cases (p d)) [
  | inl kept ↦ rw kept (a.0, AllJoin-filter ts p ds a.1)
  | inr gone ↦ rw gone (AllJoin-filter ts p ds a.1)
]

-- A change of dependencies that keeps their tickets.
pub ends-update_where :
    (p : TicketDependency → Bool) (f : TicketDependency → TicketDependency)
    → ((d : TicketDependency) → ends (f d) ≡ ends d)
    → (ds : List TicketDependency) → map ends (update_where p f ds) ≡ map ends ds
unfolding update_where
ends-update_where p f same [] = refl
ends-update_where p f same (d ∷ ds) =
    let rest = ends-update_where p f same ds in
    elim (Bool-cases (p d)) [
      | inl hit ↦ rw hit (ap₂ (λ x xs. x ∷ xs) (same d) rest)
      | inr miss ↦ rw miss (ap (λ xs. ends d ∷ xs) rest)
    ]

module _ (env : Env) where
  insert_row-Keeps : (inp : AuditRecordInput) → Keeps ends_of (insert_row env inp)
  unfolding insert_row
  insert_row-Keeps inp = record { at = λ s. ground arith }

  module _ (ids : List ℕ) (actor : Option ℕ) where
    comments_deleted-Keeps : Keeps ends_of (cascade_soft_delete_comments env ids actor)
    unfolding cascade_soft_delete_comments
    comments_deleted-Keeps = Keeps-bind (gets _) _ (Keeps-gets _) λ rows.
        Keeps-if (is_empty ids || is_empty rows) _ _ (Keeps-pure tt) (
          Keeps-bind (modify _) _ (Keeps-modify _ (λ s. refl))
            (λ u. Keeps-audit_rows env _ rows (λ s l. refl)))

    dependencies_deleted-Keeps : Keeps ends_of (cascade_soft_delete_dependencies env ids actor)
    unfolding cascade_soft_delete_dependencies Dependencies.mark_deleted
    dependencies_deleted-Keeps = Keeps-bind (gets _) _ (Keeps-gets _) λ rows.
        Keeps-if (is_empty ids || is_empty rows) _ _ (Keeps-pure tt) (
          Keeps-bind (modify _) _ (Keeps-modify _ (λ s. ends-update_where _ _ (λ d. refl) s.deps))
            (λ u. Keeps-audit_rows env _ rows (λ s l. refl)))

    attachments_deleted-Keeps : Keeps ends_of (cascade_soft_delete_attachments env ids actor)
    unfolding cascade_soft_delete_attachments
    attachments_deleted-Keeps = Keeps-bind (gets _) _ (Keeps-gets _) λ rows.
        Keeps-if (is_empty ids || is_empty rows) _ _ (Keeps-pure tt) (
          Keeps-bind (modify _) _ (Keeps-modify _ (λ s. refl))
            (λ u. Keeps-audit_rows env _ rows (λ s l. refl)))

    deletes-Keeps : Keeps ends_of (run_cascade_soft_deletes env (app env).cascade ids actor)
    unfolding run_cascade_soft_deletes run_handlers registered app for_each
    deletes-Keeps = Keeps-if (is_empty ids) _ _ (Keeps-pure tt) (
        Keeps-bind _ _ comments_deleted-Keeps (λ u.
          Keeps-bind _ _ dependencies_deleted-Keeps
            (λ v. Keeps-bind _ _ attachments_deleted-Keeps (λ w. Keeps-pure tt))))

  -- The deletion of a ticket keeps the two tickets of every dependency, however it ends.
  pub delete_in_transaction-Keeps :
      (id : ℕ) (actor : Option ℕ) (version : ℕ)
      → Keeps ends_of (Remove.delete_in_transaction env (app env) id actor version)
  unfolding Remove.delete_in_transaction Remove.save_deleted assert_version_matches
  delete_in_transaction-Keeps id actor version = Keeps-bind _ _ (Keeps-gets _) λ found.
      Keeps-bind (or_raise found _) _ (or_raise-Keeps found) λ row.
        Keeps-bind _ _ (record { at = λ s. refl })
          λ u.
            Keeps-bind _ _
              (Keeps-if (env.save_conflict (record row { deleted_at = some env.now })) _ _
                (record { at = λ s. refl }) (Keeps-modify _ (λ s. refl)))
              λ v. Keeps-bind _ _ (deletes-Keeps (row.id ∷ []) actor) (λ w. insert_row-Keeps _)
    where
      or_raise-Keeps : (o : Option Ticket) → Keeps ends_of (or_raise o (not_found ticket_entity id))
      or_raise-Keeps none = record { at = λ s. refl }
      or_raise-Keeps (some t) = record { at = λ s. refl }

  pub insert_ticket-Keeps :
      (reg : Registered)
      → IsReading env reg
      → (dto : CreateTicketDto) (actor : Option ℕ) → Keeps ends_of (insert_ticket env reg dto actor)
  unfolding insert_ticket
  insert_ticket-Keeps reg reads dto actor =
      Keeps-bind _ _ (record { at = λ s. ap ends_of (reads dto s) })
        λ choice. Keeps-bind _ _ (Keeps-gets _) λ saved.
          Keeps-bind _ _ (Keeps-modify _ (λ s. refl)) λ u.
            Keeps-bind _ _ (insert_row-Keeps _)
              λ v. Keeps-bind _ _ (noted saved.id choice) (λ w. Keeps-pure _)
    where
      noted : (id : ℕ) (choice : Option ℕ × Bool) → Keeps ends_of (auto_assign_row env id choice)
      noted id (none, b) = Keeps-pure tt
      noted id (some n, false) = Keeps-pure tt
      noted id (some n, true) = insert_row-Keeps _
