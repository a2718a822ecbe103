-- ===== src/Dependencies.antt =====
-- tickets/dependencies/dependencies.service.ts.
pub mod Blocking
pub mod Adding
use issueflow.Prelude.{
  ℕ, Text, ◌==◌, ◌&&◌, ◌||◌, not, Bool, true, false, Option, none, some, List, [], ◌∷◌, ◌++◌, map,
  filter, find_one, any, update_where, contains, is_empty, if◌then◌else◌,
}
use issueflow.Enums.{
  TicketStatus, done, status_eq, ticket_entity, dependency_entity, create_action, delete_action,
  restore_action, AuditAction,
}
use issueflow.Entities.{Ticket, TicketDependency, is_null, blocked_by_meta, cascade_tickets}
use issueflow.Store.{
  Db, Env, Exec, dependency_not_found, bad_request, conflict, unresolved_blockers, unexpected, pure,
  raise, gets, or_raise, raise_if, modify, transaction, for_each, ◌>>=◌, ◌>>◌, ok,
}
use issueflow.Audit.{actor_of, input, insert_row, record_entry}
use issueflow.Tickets.Base
use issueflow.Tickets.Base.{is_live_ticket, CascadeHandler}

pub record Blocker : Type 0 where
  pub id : ℕ
  pub title : Text
  pub status : TicketStatus

abbrev pub is_edge : ℕ → ℕ → TicketDependency → Bool
is_edge ticket_id blocked_by d = (d.ticket_id == ticket_id) && (d.blocked_by == blocked_by)

abbrev pub is_live_edge : ℕ → ℕ → TicketDependency → Bool
is_live_edge ticket_id blocked_by d = is_edge ticket_id blocked_by d && is_null d.deleted_at

module _ (env : Env) where
  unfoldable pub new_dependency : ℕ → ℕ → List TicketDependency → TicketDependency
  new_dependency ticket_id blocked_by rows = record {
    id = env.next_id (map (λ d. d.id) rows);
    ticket_id = ticket_id;
    blocked_by = blocked_by;
    deleted_by_cascade = false;
    created_at = env.now;
    deleted_at = none;
  }

  -- `depsRepo.insert`, under the unique index UQ_ticket_dependency of the entity, which counts the
  -- deleted rows too.
  unfoldable pub insert_dependency : ℕ → ℕ → Exec Unit
  unfolding new_dependency
  insert_dependency ticket_id blocked_by s =
      if any (is_edge ticket_id blocked_by) s.deps
      then raise unexpected s
      else (ok tt, record s { deps = s.deps ++ new_dependency ticket_id blocked_by s.deps ∷ [] })

  unfoldable pub add_in_transaction : ℕ → ℕ → Option ℕ → Exec Unit
  unfolding insert_dependency
  add_in_transaction ticket_id blocked_by actor_user_id = do
    t ← Base.find_live ticket_id
    b ← Base.find_live blocked_by
    raise_if (not (t.project_id == b.project_id))
        (bad_request "Dependencies must be within the same project")
    existing ← gets (λ s. any (is_live_edge ticket_id blocked_by) s.deps)
    raise_if existing (conflict "Dependency already exists")
    insert_dependency ticket_id blocked_by
    insert_row env (
        input create_action ticket_entity ticket_id (actor_of actor_user_id)
          (some (blocked_by_meta blocked_by)))

  unfoldable pub add : ℕ → ℕ → Option ℕ → Exec Unit
  unfolding add_in_transaction
  add ticket_id blocked_by actor_user_id = do
    raise_if (ticket_id == blocked_by) (bad_request "Ticket cannot depend on itself")
    transaction (λ s s'. record s' { deps = s.deps; audit_logs = s.audit_logs })
        (add_in_transaction ticket_id blocked_by actor_user_id)

  unfoldable pub remove : ℕ → ℕ → Option ℕ → Exec Unit
  remove ticket_id blocked_by actor_user_id = do
    Base.find_live ticket_id
    found ← gets (λ s. find_one (is_live_edge ticket_id blocked_by) s.deps)
    d ← or_raise found dependency_not_found
    modify λ s. record s { deps = filter (λ r. not (r.id == d.id)) s.deps }
    record_entry env (
        input delete_action ticket_entity ticket_id (actor_of actor_user_id)
          (some (blocked_by_meta blocked_by)))

-- The live dependencies of a ticket.
abbrev pub live_deps_of : ℕ → Db → List TicketDependency
live_deps_of ticket_id s = filter (λ d. (d.ticket_id == ticket_id) && is_null d.deleted_at) s.deps

abbrev pub blocker_rows : List TicketDependency → Db → List Ticket
blocker_rows ds s =
    filter (λ t. contains (map (λ d. d.blocked_by) ds) t.id && is_null t.deleted_at) s.tickets

unfoldable pub list_blockers : ℕ → Exec (List Blocker)
list_blockers ticket_id = do
  Base.assert_active ticket_id
  rows ← gets (live_deps_of ticket_id)
  blockers ← gets (blocker_rows rows)
  pure (
      if is_empty rows
      then []
      else map (λ b. record { id = b.id; title = b.title; status = b.status }) blockers)

-- The ids of the live blockers that are not DONE.
unfoldable pub unresolved : List TicketDependency → Db → List ℕ
unresolved ds s = map (λ b. b.id) (filter (λ b. not (status_eq b.status done)) (blocker_rows ds s))

unfoldable pub assert_blockers_resolved_for_done : ℕ → Exec Unit
unfolding unresolved
assert_blockers_resolved_for_done ticket_id s =
    let ds = live_deps_of ticket_id s in
    if is_empty ds
    then (ok tt, s)
    else raise_if (not (is_empty (unresolved ds s))) (unresolved_blockers (unresolved ds s)) s

abbrev pub touches : List ℕ → TicketDependency → Bool
touches ids d = contains ids d.ticket_id || contains ids d.blocked_by

module _ (env : Env) where
  unfoldable pub mark_deleted : List ℕ → List TicketDependency → List TicketDependency
  mark_deleted row_ids =
      update_where (λ d. contains row_ids d.id)
        λ d. record d { deleted_at = some env.now; deleted_by_cascade = true }

  unfoldable pub mark_restored : List ℕ → List TicketDependency → List TicketDependency
  mark_restored row_ids =
      update_where (λ d. contains row_ids d.id)
        λ d. record d { deleted_at = none; deleted_by_cascade = false }

  record_each : AuditAction → Option ℕ → List ℕ → List TicketDependency → Exec Unit
  record_each action actor_user_id ticket_ids = for_each λ r. record_entry env (
      input action dependency_entity r.id (actor_of actor_user_id)
        (some (cascade_tickets ticket_ids)))

  unfoldable pub cascade_soft_delete_dependencies : CascadeHandler
  unfolding record_each
  cascade_soft_delete_dependencies ticket_ids actor_user_id = do
    rows ← gets (λ s. filter (λ d. touches ticket_ids d && is_null d.deleted_at) s.deps)
    if is_empty ticket_ids || is_empty rows then pure tt else do
      modify λ s'. record s' { deps = mark_deleted (map (λ r. r.id) rows) s'.deps }
      record_each delete_action actor_user_id ticket_ids rows

  unfoldable pub cascade_restore_dependencies : CascadeHandler
  unfolding record_each
  cascade_restore_dependencies ticket_ids actor_user_id = do
    rows ← gets (λ s. filter (λ d. touches ticket_ids d && d.deleted_by_cascade) s.deps)
    if is_empty ticket_ids || is_empty rows then pure tt else do
      modify λ s'. record s' { deps = mark_restored (map (λ r. r.id) rows) s'.deps }
      record_each restore_action actor_user_id ticket_ids rows
