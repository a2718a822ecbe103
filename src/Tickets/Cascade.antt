-- ===== src/Tickets/Cascade.antt =====
-- tickets/tickets.service.ts: the cascades from a project to its tickets, and from tickets to what
-- hangs on them.
pub mod RoundTrip
use issueflow.Prelude.{
  ℕ, ◌==◌, ◌&&◌, not, true, false, Option, none, some, List, [], ◌∷◌, map, filter, contains,
  is_empty, update_where, if◌then◌else◌,
}
use issueflow.Enums.{AuditAction, ticket_entity, delete_action, restore_action}
use issueflow.Entities.{Ticket, cascade_project, is_null}
use issueflow.Store.{Env, Exec, pure, gets, modify, for_each, ◌>>=◌, ◌>>◌}
use issueflow.Audit.{actor_of, input, record_entry}
use issueflow.Projects.{ProjectCascadeHandler}
use issueflow.Tickets.Base.{CascadeHandler, TicketCascadeTarget}

-- The filter that keeps the registered handlers, in order.
unfoldable pub registered : List (Option CascadeHandler) → List CascadeHandler
registered [] = []
registered (none ∷ hs) = registered hs
registered (some h ∷ hs) = h ∷ registered hs

unfoldable pub soft_delete_handlers : TicketCascadeTarget → List CascadeHandler
unfolding registered
soft_delete_handlers c = registered (
    c.cascade_soft_delete_comments ∷ c.cascade_soft_delete_dependencies
    ∷ c.cascade_soft_delete_attachments ∷ [])

unfoldable pub restore_handlers : TicketCascadeTarget → List CascadeHandler
unfolding registered
restore_handlers c = registered (
    c.cascade_restore_comments ∷ c.cascade_restore_dependencies ∷ c.cascade_restore_attachments
    ∷ [])

unfoldable pub run_handlers : List CascadeHandler → List ℕ → Option ℕ → Exec Unit
unfolding for_each
run_handlers hs ids actor_user_id =
    if is_empty ids then pure tt else for_each (λ h. h ids actor_user_id) hs

module _ (env : Env) (c : TicketCascadeTarget) where
  unfoldable pub run_cascade_soft_deletes : List ℕ → Option ℕ → Exec Unit
  unfolding run_handlers soft_delete_handlers
  run_cascade_soft_deletes = run_handlers (soft_delete_handlers c)

  unfoldable pub run_cascade_restores : List ℕ → Option ℕ → Exec Unit
  unfolding run_handlers restore_handlers
  run_cascade_restores = run_handlers (restore_handlers c)

  -- `Promise.all` over the ids, one after the other.
  unfoldable pub record_cascade_audit_rows : List ℕ → AuditAction → Option ℕ → ℕ → Exec Unit
  record_cascade_audit_rows ids action actor_user_id project_id =
      for_each
        (λ id. record_entry env (
          input action ticket_entity id (actor_of actor_user_id)
            (some (cascade_project project_id))))
        ids

  unfoldable pub mark_deleted : List ℕ → List Ticket → List Ticket
  mark_deleted ids =
      update_where (λ t. contains ids t.id)
        λ t. record t {
          deleted_by_cascade = true;
          deleted_at = some env.now;
          version = env.bulk_version t.version;
        }

  unfoldable pub mark_restored : List ℕ → List Ticket → List Ticket
  mark_restored ids =
      update_where (λ t. contains ids t.id)
        λ t. record t {
          deleted_by_cascade = false;
          deleted_at = none;
          version = env.bulk_version t.version;
        }

  delete_all : ℕ → Option ℕ → List ℕ → Exec Unit
  delete_all project_id actor_user_id ids = do
    modify λ s. record s { tickets = mark_deleted ids s.tickets }
    run_cascade_soft_deletes ids actor_user_id
    record_cascade_audit_rows ids delete_action actor_user_id project_id

  unfoldable pub cascade_soft_delete_for_project : ℕ → Option ℕ → Exec Unit
  unfolding delete_all
  cascade_soft_delete_for_project project_id actor_user_id = do
    live ← gets (λ s. filter (λ t. (t.project_id == project_id) && is_null t.deleted_at) s.tickets)
    if is_empty live then pure tt else delete_all project_id actor_user_id (map (λ t. t.id) live)

  restore_all : ℕ → Option ℕ → List ℕ → Exec Unit
  restore_all project_id actor_user_id ids = do
    modify λ s. record s { tickets = mark_restored ids s.tickets }
    run_cascade_restores ids actor_user_id
    record_cascade_audit_rows ids restore_action actor_user_id project_id

  unfoldable pub cascade_restore_for_project : ℕ → Option ℕ → Exec Unit
  unfolding restore_all
  cascade_restore_for_project project_id actor_user_id = do
    candidates ← gets (λ s.
        filter
          (λ t. (t.project_id == project_id) && t.deleted_by_cascade && not (is_null t.deleted_at))
          s.tickets)
    if is_empty candidates
        then pure tt
        else restore_all project_id actor_user_id (map (λ t. t.id) candidates)

  abbrev pub project_cascade_handler : ProjectCascadeHandler
  project_cascade_handler = record {
    cascade_soft_delete_for_project = cascade_soft_delete_for_project;
    cascade_restore_for_project = cascade_restore_for_project;
  }
