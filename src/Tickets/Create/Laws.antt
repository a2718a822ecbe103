-- ===== src/Tickets/Create/Laws.antt =====
-- What creating a ticket promises.
use issueflow.Prelude.{
  ℕ, ◌≡◌, refl, arith, true, false, Bool, Option, none, some, [], ◌∷◌, ◌++◌, map, any,
}
use issueflow.Entities.{Ticket}
use issueflow.Store.{Result, Db, Env, Exec, ok, err, Error, ◌>>=◌}
use issueflow.Audit.{insert_row}
use issueflow.Users
use issueflow.Users.{is_live_user}
use issueflow.Projects
use issueflow.Projects.{is_live_project}
use issueflow.Tickets.Base.{Registered}
use issueflow.Tickets.Create.{CreateTicketDto, new_ticket, choose_assignee, insert_ticket, create}

-- The registered resolver only reads.
abbrev pub IsReading : Env → Registered → Type 0
IsReading env reg = (dto : CreateTicketDto) (s : Db) → (choose_assignee env reg dto s).1 ≡ s

-- The columns that the caller gives.
pub record AsAsked (dto : CreateTicketDto) (t : Ticket) : Type 0 where
  pub title : t.title ≡ dto.title
  pub description : t.description ≡ dto.description
  pub status : t.status ≡ dto.status
  pub priority : t.priority ≡ dto.priority
  pub type : t.type ≡ dto.type
  pub project_id : t.project_id ≡ dto.project_id
  pub due_date : t.due_date ≡ dto.due_date

-- The columns that every new ticket has alike.
pub record Unedited (env : Env) (s : Db) (t : Ticket) : Type 0 where
  pub id : t.id ≡ env.next_id (map (λ r. r.id) s.tickets)
  pub version : t.version ≡ 1
  pub is_overdue : t.is_overdue ≡ false
  pub deleted_by_cascade : t.deleted_by_cascade ≡ false
  pub created_at : t.created_at ≡ env.now
  pub deleted_at : t.deleted_at ≡ none

-- Whose ticket it is, from the resolver that is registered and the assignee that was asked for.
abbrev pub Assigned : Option (ℕ → Exec (Option ℕ)) → Option ℕ → Db → Ticket → Type 0
Assigned _ (some id) s t = (t.assignee_id ≡ some id) × (any (is_live_user id) s.users ≡ true)
Assigned (some pick) none s t = pick t.project_id s ≡ (ok t.assignee_id, s)
Assigned none none s t = t.assignee_id ≡ none

module _ (env : Env) (reg : Registered) (reads : IsReading env reg) where
  -- If the registered resolver only reads, a call of `create` that fails leaves the database as it
  -- was.
  pub create-error :
      (dto : CreateTicketDto) (actor : Option ℕ) (s s' : Db) (e : Error)
      → create env reg dto actor s ≡ (err e, s')
      → s' ≡ s
  unfolding create insert_ticket insert_row Projects.assert_active Users.assert_active ◌>>=◌
  create-error dto actor s s' e h = ground (arith, reads dto s)

  -- If the registered resolver only reads, the ticket that `create` returns has the fields asked for
  -- and is new in all others, was added behind the others, and nothing else was written but the log.
  -- Its project is live. An assignee asked for is its assignee and a live user; with none asked for,
  -- its assignee is the one that the resolver picks for its project, or nobody where no resolver is
  -- registered.
  pub create-new_ticket :
      (dto : CreateTicketDto) (actor : Option ℕ) (s s' : Db) (t : Ticket)
      → create env reg dto actor s ≡ (ok t, s')
      → AsAsked dto t
        × Unedited env s t
        × Assigned reg.auto_assign dto.assignee_id s t
        × (any (is_live_project t.project_id) s.projects ≡ true)
        × (s' ≡ record s { tickets = s.tickets ++ t ∷ []; audit_logs = s'.audit_logs })
  unfolding create insert_ticket new_ticket choose_assignee insert_row Projects.assert_active
      Users.assert_active Projects.exists_and_active Users.exists_and_active ◌>>=◌
  create-new_ticket dto actor s s' t h =
      go (choose_assignee env reg dto s) refl dto.assignee_id refl reg.auto_assign refl
    where
      go :
          (r : Result (Option ℕ × Bool) × Db)
          → choose_assignee env reg dto s ≡ r
          → (a : Option ℕ) → dto.assignee_id ≡ a
          → (pick : Option (ℕ → Exec (Option ℕ))) → reg.auto_assign ≡ pick
          → AsAsked dto t
            × Unedited env s t
            × Assigned pick a s t
            × (any (is_live_project t.project_id) s.projects ≡ true)
            × (s' ≡ record s { tickets = s.tickets ++ t ∷ []; audit_logs = s'.audit_logs })
      go (err x, s1) e a ea pick ep = ground (arith, reads dto s)
      go (ok choice, s1) e (some id) ea pick ep = ground (arith, reads dto s)
      go (ok choice, s1) e none ea none ep = ground (arith, reads dto s)
      go (ok choice, s1) e none ea (some pick) ep = ground (arith, reads dto s)
