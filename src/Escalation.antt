-- ===== src/Escalation.antt =====
-- tickets/escalation/escalation.service.ts: one tick of the escalation.
pub mod Bucketing
pub mod Tick
pub mod Schedule
use issueflow.Prelude.{
  ℕ, suc, ◌+◌, ltb, ◌&&◌, ◌||◌, not, Bool, true, false, Option, none, some, List, [], ◌∷◌, ◌++◌,
  map, filter, length, update_where, contains, is_empty, if◌then◌else◌,
}
use issueflow.Enums.{
  TicketPriority, critical, done, status_eq, priority_eq, priority_index, ticket_priority_order,
  get_elem?, ticket_entity, auto_escalate,
}
use issueflow.Entities.{Date, Ticket, is_null, escalation}
use issueflow.Store.{Env, Exec, pure, modify, for_each, ◌>>◌, ok}
use issueflow.Tickets.Ids.{ids_of}
use issueflow.Audit.{AuditRecordInput, system_actor, input, record_entry}

pub record PendingAuditRow : Type 0 where
  pub ticket_id : ℕ
  pub priority_from : TicketPriority
  pub priority_to : TicketPriority
  pub is_overdue_from : Bool
  pub is_overdue_to : Bool

-- `Map<TicketPriority, Ticket[]>`, in the order of insertion.
abbrev pub PriorityBumps : Type 0
PriorityBumps = List (TicketPriority × List Ticket)

pub record Buckets : Type 0 where
  pub priority_bumps : PriorityBumps
  pub critical_flip : List Ticket
  pub audit_rows : List PendingAuditRow

-- `map.set(p, [...(map.get(p) ?? []), t])`.
unfoldable pub push_bump : TicketPriority → Ticket → PriorityBumps → PriorityBumps
push_bump p t [] = (p, t ∷ []) ∷ []
push_bump p t ((q, ts) ∷ m) =
    if priority_eq q p then (q, ts ++ t ∷ []) ∷ m else (q, ts) ∷ push_bump p t m

-- `TICKET_PRIORITY_ORDER[indexOf(p) + 1]`; none past the end.
unfoldable pub next_priority : TicketPriority → Option TicketPriority
next_priority p = get_elem? ticket_priority_order (suc (priority_index p))

-- One round of the loop of `bucketByTransition`.
unfoldable pub bucket_ticket : Ticket → Buckets → Buckets
unfolding push_bump next_priority
bucket_ticket t b = elim (next_priority t.priority) [
  | some to ↦ record {
    priority_bumps = push_bump t.priority t b.priority_bumps;
    critical_flip = b.critical_flip;
    audit_rows =
        b.audit_rows
        ++ record {
          ticket_id = t.id;
          priority_from = t.priority;
          priority_to = to;
          is_overdue_from = t.is_overdue;
          is_overdue_to = if priority_eq to critical then true else t.is_overdue;
        }
          ∷ [];
  }
  | none ↦ if t.is_overdue then b else record {
    priority_bumps = b.priority_bumps;
    critical_flip = b.critical_flip ++ t ∷ [];
    audit_rows =
        b.audit_rows
        ++ record {
          ticket_id = t.id;
          priority_from = t.priority;
          priority_to = t.priority;
          is_overdue_from = t.is_overdue;
          is_overdue_to = true;
        }
          ∷ [];
  }
]

unfoldable pub bucket_from : Buckets → List Ticket → Buckets
unfolding bucket_ticket
bucket_from b [] = b
bucket_from b (t ∷ ts) = bucket_from (bucket_ticket t b) ts

abbrev pub no_buckets : Buckets
no_buckets = record { priority_bumps = []; critical_flip = []; audit_rows = [] }

unfoldable pub bucket_by_transition : List Ticket → Buckets
unfolding bucket_from
bucket_by_transition = bucket_from no_buckets

-- `UPDATE … SET priority = to, isOverdue = …, version = version + 1 WHERE id IN (…)`; a missing
-- `to` would be an undefined value, which sets nothing.
unfoldable pub bump_group : TicketPriority → List ℕ → List Ticket → List Ticket
unfolding next_priority
bump_group from ids rows = elim (next_priority from) [
  | none ↦ rows
  | some to ↦
      update_where (λ r. contains ids r.id)
        (λ r. record r {
          priority = to;
          is_overdue = if priority_eq to critical then true else r.is_overdue;
          version = r.version + 1;
        })
        rows
]

unfoldable pub bump_groups : PriorityBumps → List Ticket → List Ticket
unfolding bump_group
bump_groups [] rows = rows
bump_groups ((p, group) ∷ m) rows = bump_groups m (bump_group p (ids_of group) rows)

unfoldable pub flip_critical : List ℕ → List Ticket → List Ticket
flip_critical ids rows =
    if is_empty ids
    then rows
    else update_where (λ r. contains ids r.id)
        (λ r. record r { is_overdue = true; version = r.version + 1 }) rows

-- `t.dueDate < :now AND t.status != :done AND t.deletedAt IS NULL`.
unfoldable pub is_past_due : Date → Ticket → Bool
is_past_due now t =
    elim t.due_date [ none ↦ false | some d ↦ ltb d now ]
    && not (status_eq t.status done)
    && is_null t.deleted_at

abbrev pub audit_input : PendingAuditRow → AuditRecordInput
audit_input row =
    input auto_escalate ticket_entity row.ticket_id system_actor
      (some (escalation row.priority_from row.priority_to row.is_overdue_from row.is_overdue_to))

module _ (env : Env) where
  -- The transaction, the audit rows and the count.
  unfoldable pub apply_buckets : Buckets → Exec ℕ
  apply_buckets b = do
    modify λ s. record s {
      tickets = flip_critical (ids_of b.critical_flip) (bump_groups b.priority_bumps s.tickets);
    }
    for_each (λ row. record_entry env (audit_input row)) b.audit_rows
    pure (length b.audit_rows)

  unfoldable pub run_escalation : Exec ℕ
  run_escalation s =
      let overdue = filter (is_past_due env.now) s.tickets in
      let b = bucket_by_transition overdue in
      if is_empty overdue || is_empty b.audit_rows then (ok 0, s) else apply_buckets b s
