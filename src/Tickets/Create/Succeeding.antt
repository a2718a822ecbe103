-- ===== src/Tickets/Create/Succeeding.antt =====
-- When creating a ticket succeeds.
use issueflow.Prelude.{
  All, List, ℕ, ◌≡◌, refl, arith, Bool, true, false, Option, none, some, List, [], ◌∷◌, ◌++◌,
}
use issueflow.Enums.{create_action, ticket_entity}
use issueflow.Entities.{AuditLog, Ticket}
use issueflow.Store.{Db, Env, ok, ◌>>=◌}
use issueflow.Audit.{AuditRecordInput, input, actor_of, audit_row, insert_row, record_entry}
use issueflow.Users
use issueflow.Projects
use issueflow.Tickets.Base.{Registered}
use issueflow.Tickets.Create.{
  CreateTicketDto, new_ticket, choose_assignee, auto_assign_row, assert_assignee, insert_ticket,
  create,
}

-- The resolver answers, and only reads.
abbrev pub Answers : Env → Registered → Type 0
Answers env reg =
    (dto : CreateTicketDto) (s : Db)
    → (choice : Option ℕ × Bool) × (choose_assignee env reg dto s ≡ (ok choice, s))

abbrev pub assignee_active : Db → Option ℕ → Bool
assignee_active s none = true
assignee_active s (some id) = Users.exists_and_active id s

-- What an inserted ticket leaves: itself behind the others, in the same projects and users.
abbrev pub Inserted : Env → CreateTicketDto → Option ℕ → Db → Db → Type 0
Inserted env dto assignee s s' =
    (s'.tickets ≡ s.tickets ++ new_ticket env dto assignee s.tickets ∷ [])
    × (s'.projects ≡ s.projects)
    × (s'.users ≡ s.users)

pub chosen :
    (env : Env) (reg : Registered) (dto : CreateTicketDto) (s : Db) (choice : Option ℕ × Bool)
    (id : ℕ)
    → choose_assignee env reg dto s ≡ (ok choice, s)
    → dto.assignee_id ≡ some id
    → choice.0 ≡ some id
unfolding choose_assignee
chosen env reg dto s choice id h e = ground arith

module _ (env : Env) (reg : Registered) (answers : Answers env reg)
    (accepts : (row : AuditLog) → env.audit_accepts row ≡ true) where
  insert_row-accepts :
      (inp : AuditRecordInput) (s : Db)
      → insert_row env inp s
        ≡ (ok tt, record s { audit_logs = s.audit_logs ++ audit_row env inp s.audit_logs ∷ [] })
  unfolding insert_row
  insert_row-accepts inp s = rw (accepts (audit_row env inp s.audit_logs))

  pub record_entry-accepts :
      (inp : AuditRecordInput) (s : Db)
      → record_entry env inp s
        ≡ (ok tt, record s { audit_logs = s.audit_logs ++ audit_row env inp s.audit_logs ∷ [] })
  unfolding record_entry
  record_entry-accepts inp s = ground (arith, insert_row-accepts inp s)

  auto_assign_row-frame :
      (id : ℕ) (choice : Option ℕ × Bool) (s : Db)
      → (logs : List AuditLog) × (auto_assign_row env id choice s
          ≡ (ok tt, record s { audit_logs = logs }))
  auto_assign_row-frame id (none, b) s = (s.audit_logs, refl)
  auto_assign_row-frame id (some n, false) s = (s.audit_logs, refl)
  auto_assign_row-frame id (some n, true) s = (_, insert_row-accepts _ s)

  insert_ticket-succeeds :
      (dto : CreateTicketDto) (actor : Option ℕ) (choice : Option ℕ × Bool) (s : Db)
      → choose_assignee env reg dto s ≡ (ok choice, s)
      → (s' : Db) × (insert_ticket env reg dto actor s
          ≡ (ok (new_ticket env dto choice.0 s.tickets), s'))
        × Inserted env dto choice.0 s s'
  unfolding insert_ticket ◌>>=◌
  insert_ticket-succeeds dto actor choice s h =
      let saved = new_ticket env dto choice.0 s.tickets in
      let inp = input create_action ticket_entity saved.id (actor_of actor) none in
      let s2 = record s { tickets = s.tickets ++ saved ∷ [] } in
      let s3 = record s2 { audit_logs = s2.audit_logs ++ audit_row env inp s2.audit_logs ∷ [] } in
      let (logs, e) = auto_assign_row-frame saved.id choice s3 in
      (
        record s3 { audit_logs = logs },
        ground (arith, h, insert_row-accepts inp s2, e),
        (refl, refl, refl),
      )

  pub project_accepted :
      (p : ℕ) (s : Db)
      → Projects.exists_and_active p s ≡ true
      → Projects.assert_active p s ≡ (ok tt, s)
  unfolding Projects.assert_active
  project_accepted p s live = rw live

  assignee_accepted :
      (id : Option ℕ) (s : Db) → assignee_active s id ≡ true → assert_assignee env id s ≡ (ok tt, s)
  unfolding Users.assert_active
  assignee_accepted none s h = refl
  assignee_accepted (some id) s h = rw h

  pub create-succeeds :
      (dto : CreateTicketDto) (actor : Option ℕ) (s : Db)
      → Projects.exists_and_active dto.project_id s ≡ true
      → assignee_active s dto.assignee_id ≡ true
      → (choice : Option ℕ × Bool) × (s' : Db) × (choose_assignee env reg dto s ≡ (ok choice, s))
        × (create env reg dto actor s ≡ (ok (new_ticket env dto choice.0 s.tickets), s'))
        × Inserted env dto choice.0 s s'
  unfolding create ◌>>=◌
  create-succeeds dto actor s live active =
      let (choice, h) = answers dto s in
      let (s', e, in_s') = insert_ticket-succeeds dto actor choice s h in
      (
        choice,
        s',
        h,
        ground (
          arith,
          project_accepted dto.project_id s live,
          assignee_accepted dto.assignee_id s active,
          e,
        ),
        in_s',
      )

-- The assignees are live, and stay so while the users do.
abbrev pub AllActive : Db → List Ticket → Type 0
AllActive s ts = All (λ t. assignee_active s t.assignee_id ≡ true) ts

pub live_same :
    (q : ℕ) (s s' : Db)
    → s'.projects ≡ s.projects
    → Projects.exists_and_active q s ≡ true
    → Projects.exists_and_active q s' ≡ true
unfolding Projects.exists_and_active
live_same q s s' same live = rw same live

pub active_same :
    (s s' : Db) → s'.users ≡ s.users → (ts : List Ticket) → AllActive s ts → AllActive s' ts
unfolding Users.exists_and_active
active_same s s' same [] h = tt
active_same s s' same (t ∷ ts) (a, h) = (still t.assignee_id a, active_same s s' same ts h)
  where
    still : (id : Option ℕ) → assignee_active s id ≡ true → assignee_active s' id ≡ true
    still none k = refl
    still (some id) k = rw same k
