-- ===== src/Tickets/Update.antt =====
-- tickets/tickets.service.ts: `update`.
pub mod Rules
pub mod Laws
use issueflow.Prelude.{
  ℕ, Text, ltb, ◌&&◌, not, false, Option, none, some, find_one, update_where, if◌then◌else◌,
}
use issueflow.Enums.{
  TicketStatus, TicketPriority, TicketType, done, status_eq, priority_eq, status_index,
  ticket_entity, update_action,
}
use issueflow.Entities.{Date, Ticket, Metadata, changes, is_null}
use issueflow.Store.{
  Env, Exec, not_found, status_backwards, forbidden, version_mismatch, pure, raise, gets, or_raise,
  raise_if, modify, ◌>>=◌, ◌>>◌,
}
use issueflow.Audit.{actor_of, input, record_entry}
use issueflow.Users
use issueflow.Users.{or_else}
use issueflow.Tickets.Base.{Registered, is_ticket, assert_version_matches}

-- A field that is absent is `none`; `assignee_id` may also be given as null.
pub record UpdateTicketDto : Type 0 where
  pub title : Option Text
  pub description : Option Text
  pub status : Option TicketStatus
  pub priority : Option TicketPriority
  pub type : Option TicketType
  pub assignee_id : Option (Option ℕ)
  pub due_date : Option Date

unfoldable pub assert_editable : Ticket → Exec Unit
assert_editable t =
    raise_if (status_eq t.status done) (forbidden "Ticket is DONE and cannot be modified")

-- `this.blockers.assertBlockersResolvedForDone(id)`, where a resolver is registered.
unfoldable pub resolve_blockers : Registered → ℕ → Exec Unit
resolve_blockers reg id = elim reg.blockers [ none ↦ pure tt | some check ↦ check id ]

-- A status that differs from the current one.
move_status : Registered → Ticket → TicketStatus → Exec Ticket
move_status reg t next = do
  raise_if (ltb (status_index next) (status_index t.status)) (status_backwards t.status next)
  if status_eq next done then resolve_blockers reg t.id else pure tt
  pure (record t { status = next })

unfoldable pub apply_status_change : Registered → Ticket → UpdateTicketDto → Exec Ticket
unfolding move_status
apply_status_change reg t dto = elim dto.status [
  | none ↦ pure t
  | some next ↦ if status_eq next t.status then pure t else move_status reg t next
]

unfoldable pub apply_assignee_change : Ticket → UpdateTicketDto → Exec Ticket
apply_assignee_change t dto = elim dto.assignee_id [
  | none ↦ pure t
  | some none ↦ pure (record t { assignee_id = none })
  | some (some id) ↦ do Users.assert_active id; pure (record t { assignee_id = some id })
]

abbrev or_old : Option Date → Option Date → Option Date
or_old none old = old
or_old (some d) old = some d

unfoldable pub apply_scalar_patches : Ticket → UpdateTicketDto → Ticket
apply_scalar_patches t dto = record t {
  title = or_else dto.title t.title;
  description = or_else dto.description t.description;
  type = or_else dto.type t.type;
  due_date = or_old dto.due_date t.due_date;
  priority = or_else dto.priority t.priority;
  is_overdue = elim dto.priority [ none ↦ t.is_overdue | some p ↦ false ];
}

unfoldable pub build_update_audit_metadata :
    TicketStatus → TicketPriority → Ticket → Option Metadata
build_update_audit_metadata previous_status previous_priority saved =
    let moved = not (status_eq saved.status previous_status) in
    let ranked = not (priority_eq saved.priority previous_priority) in
    if not moved && not ranked
    then none
    else some (
        changes (if moved then some (previous_status, saved.status) else none)
          (if ranked then some (previous_priority, saved.priority) else none))

-- `fresh?.version ?? null`.
abbrev version_of : Option Ticket → Option ℕ
version_of none = none
version_of (some t) = some t.version

module _ (env : Env) where
  -- `row` is the stored row, `t` the entity with the changes applied.
  unfoldable pub save_with_version_guard : Ticket → Ticket → Exec Ticket
  save_with_version_guard row t =
      if env.save_conflict t
      then (do
        fresh ← gets (λ s. find_one (is_ticket t.id) s.tickets)
        raise (version_mismatch "Ticket" (version_of fresh)))
      else (do
        let saved = record t { version = env.ticket_version row t }
        modify λ s. record s { tickets = update_where (is_ticket t.id) (λ r. saved) s.tickets }
        pure saved)

  -- What follows the checks on the stored row.
  unfoldable pub apply_update : Registered → Ticket → UpdateTicketDto → Option ℕ → Exec Ticket
  unfolding apply_status_change apply_assignee_change save_with_version_guard
  apply_update reg row dto actor_user_id = do
    moved ← apply_status_change reg row dto
    placed ← apply_assignee_change moved dto
    saved ← save_with_version_guard row (apply_scalar_patches placed dto)
    record_entry env (
        input update_action ticket_entity saved.id (actor_of actor_user_id)
          (build_update_audit_metadata row.status row.priority saved))
    pure saved

  abbrev unless_deleted : Option Ticket → Option Ticket
  unless_deleted none = none
  unless_deleted (some t) = if is_null t.deleted_at then some t else none

  unfoldable pub update : Registered → ℕ → UpdateTicketDto → Option ℕ → ℕ → Exec Ticket
  update reg id dto actor_user_id expected_version = do
    found ← gets (λ s. find_one (is_ticket id) s.tickets)
    row ← or_raise (unless_deleted found) (not_found ticket_entity id)
    assert_editable row
    assert_version_matches row.version expected_version "Ticket"
    apply_update reg row dto actor_user_id
