-- ===== src/Dependencies/Adding.antt =====
-- What adding a dependency checks, and what it writes.
use issueflow.Prelude.{
  ℕ, ◌≡◌, ◌≢◌, refl, arith, false, Option, none, some, [], ◌∷◌, ◌++◌, any, find_one,
}
use issueflow.Entities.{Ticket}
use issueflow.Store.{Db, Env, ok, err, Error, ◌>>=◌}
use issueflow.Audit.{insert_row}
use issueflow.Tickets.Base
use issueflow.Tickets.Base.{is_live_ticket}
use issueflow.Dependencies.{is_edge, new_dependency, insert_dependency, add_in_transaction, add}

-- The two tickets of a dependency that was added.
pub record Joined (ticket_id blocked_by : ℕ) (s : Db) (t b : Ticket) : Type 0 where
  pub ticket : find_one (is_live_ticket ticket_id) s.tickets ≡ some t
  pub blocker : find_one (is_live_ticket blocked_by) s.tickets ≡ some b
  pub same_project : t.project_id ≡ b.project_id
  pub distinct : ticket_id ≢ blocked_by
  pub fresh : any (is_edge ticket_id blocked_by) s.deps ≡ false

-- A dependency that `add` has added is between two different live tickets of one project, none such
-- was there, live or deleted, and it is the one row written besides the log.
pub add-Joined :
    (env : Env) (ticket_id blocked_by : ℕ) (actor : Option ℕ) (s s' : Db)
    → add env ticket_id blocked_by actor s ≡ (ok tt, s')
    → (t : Ticket) × (b : Ticket) × Joined ticket_id blocked_by s t b
      × (s' ≡ record s {
        deps = s.deps ++ new_dependency env ticket_id blocked_by s.deps ∷ [];
        audit_logs = s'.audit_logs;
      })
unfolding add add_in_transaction insert_dependency insert_row Base.find_live ◌>>=◌
add-Joined env ticket_id blocked_by actor s s' h =
    go (find_one (is_live_ticket ticket_id) s.tickets)
      (find_one (is_live_ticket blocked_by) s.tickets) refl refl
  where
    go :
        (o o' : Option Ticket)
        → find_one (is_live_ticket ticket_id) s.tickets ≡ o
        → find_one (is_live_ticket blocked_by) s.tickets ≡ o'
        → (t : Ticket) × (b : Ticket) × Joined ticket_id blocked_by s t b
          × (s' ≡ record s {
            deps = s.deps ++ new_dependency env ticket_id blocked_by s.deps ∷ [];
            audit_logs = s'.audit_logs;
          })
    go none o' e e' = ground arith
    go (some t) none e e' = ground arith
    go (some t) (some b) e e' = (t, b, ground arith, ground arith)

-- A call of `add` that fails leaves the database as it was.
pub add-error :
    (env : Env) (ticket_id blocked_by : ℕ) (actor : Option ℕ) (s s' : Db) (e : Error)
    → add env ticket_id blocked_by actor s ≡ (err e, s')
    → s' ≡ s
unfolding add add_in_transaction insert_dependency insert_row Base.find_live ◌>>=◌
add-error env ticket_id blocked_by actor s s' e h = ground arith
