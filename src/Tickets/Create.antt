-- ===== src/Tickets/Create.antt =====
-- tickets/tickets.service.ts: `create`.
pub mod Laws
pub mod Succeeding
use issueflow.Prelude.{ℕ, Text, Bool, true, false, Option, none, some, List, [], ◌∷◌, ◌++◌, map}
use issueflow.Enums.{
  TicketStatus, TicketPriority, TicketType, ticket_entity, create_action, auto_assign,
}
use issueflow.Entities.{Date, Ticket, assigned_to}
use issueflow.Store.{Env, Exec, pure, gets, modify, transaction, ◌>>=◌, ◌>>◌}
use issueflow.Audit.{actor_of, system_actor, input, insert_row}
use issueflow.Users
use issueflow.Projects
use issueflow.Tickets.Base.{Registered}

pub record CreateTicketDto : Type 0 where
  pub title : Text
  pub description : Text
  pub status : TicketStatus
  pub priority : TicketPriority
  pub type : TicketType
  pub project_id : ℕ
  pub assignee_id : Option ℕ
  pub due_date : Option Date

module _ (env : Env) where
  unfoldable pub new_ticket : CreateTicketDto → Option ℕ → List Ticket → Ticket
  new_ticket dto assignee_id rows = record {
    id = env.next_id (map (λ t. t.id) rows);
    title = dto.title;
    description = dto.description;
    status = dto.status;
    priority = dto.priority;
    type = dto.type;
    project_id = dto.project_id;
    assignee_id = assignee_id;
    due_date = dto.due_date;
    is_overdue = false;
    version = 1;
    deleted_by_cascade = false;
    created_at = env.now;
    deleted_at = none;
  }

  abbrev pub assert_assignee : Option ℕ → Exec Unit
  assert_assignee none = pure tt
  assert_assignee (some id) = Users.assert_active id

  -- The assignee asked for, or the resolver's pick; the flag is `autoAssigned`.
  unfoldable pub choose_assignee : Registered → CreateTicketDto → Exec (Option ℕ × Bool)
  choose_assignee reg dto = elim dto.assignee_id [
    | some id ↦ pure (some id, false)
    | none ↦ elim reg.auto_assign [
      | none ↦ pure (none, false)
      | some pick ↦ do
        picked ← pick dto.project_id
        pure (picked, elim picked [ none ↦ false | some id ↦ true ])
    ]
  ]

  -- The audit row of an automatic assignment.
  abbrev pub auto_assign_row : ℕ → Option ℕ × Bool → Exec Unit
  auto_assign_row id (some picked, true) =
      insert_row env (input auto_assign ticket_entity id system_actor (some (assigned_to picked)))
  auto_assign_row id _ = pure tt

  -- The body of the transaction. The rows of one insert stand or fall together, as they do here,
  -- since an exception undoes them all.
  unfoldable pub insert_ticket : Registered → CreateTicketDto → Option ℕ → Exec Ticket
  unfolding new_ticket choose_assignee
  insert_ticket reg dto actor_user_id = do
    choice ← choose_assignee reg dto
    saved ← gets (λ s. new_ticket dto choice.0 s.tickets)
    modify λ s. record s { tickets = s.tickets ++ saved ∷ [] }
    insert_row env (input create_action ticket_entity saved.id (actor_of actor_user_id) none)
    auto_assign_row saved.id choice
    pure saved

  unfoldable pub create : Registered → CreateTicketDto → Option ℕ → Exec Ticket
  unfolding insert_ticket
  create reg dto actor_user_id = do
    Projects.assert_active dto.project_id
    assert_assignee dto.assignee_id
    transaction (λ s s'. record s' { tickets = s.tickets; audit_logs = s.audit_logs })
        (insert_ticket reg dto actor_user_id)
