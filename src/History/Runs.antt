-- ===== src/History/Runs.antt =====
-- A run of the application: requests, ticks of the escalation and sweeps of the deny list, one after the
-- other, each in the environment of its moment.
use issueflow.Prelude.{◌≤◌, ℕ, ◌≡◌, some, List, [], ◌∷◌, find_one}
use issueflow.Enums.{done, status_index}
use issueflow.Entities.{User, Project, Ticket, Comment, Attachment}
use issueflow.Store.{Db, Env, Result, ok, err}
use issueflow.Auth.{TokenIssuer, sweep_expired}
use issueflow.Tickets.Base.{is_ticket}
use issueflow.Escalation.{run_escalation}
use issueflow.Escalation.Schedule.{handle}
use issueflow.Api.Pipeline.{Request, Verifier, serve}
use issueflow.Users.Unique.{NoClash}
use issueflow.History.Ends.{AllJoin, ends_of}
use issueflow.History.Tables.{UniqueKeys, Descends-find_one}
use issueflow.History.Later.{
  Later, Later_refl, Onward, Onward-Later, Onward-trans, FreshIds, IsPrefix, TicketBecomes,
  done_last, Ticket-Becoming,
}
use issueflow.History.Requests.{serve-Onward}
use issueflow.History.Services.Accounts.{sweep-Onward}
use issueflow.History.Services.Escalation.{run_escalation-Respects}

pub data Event : Type 0 where
  request : Request → Event
  escalation_tick token_sweep : Event

-- An event, with the clock and the generators at that time.
pub record Moment : Type 0 where
  pub env : Env
  pub event : Event

module _ (issuer : TokenIssuer) (verify : Verifier) where
  unfoldable pub happen : Env → Event → Db → Db
  unfolding handle
  happen env (request req) s = (serve env issuer verify req s).1
  happen env escalation_tick s = (handle env s).1
  happen env token_sweep s = (sweep_expired env s).1

  unfoldable pub run : List Moment → Db → Db
  unfolding happen
  run [] s = s
  run (m ∷ ms) s = run ms (happen m.env m.event s)

-- At every moment, the key that the database generates is new.
abbrev pub AllFresh : List Moment → Type 0
AllFresh [] = Unit
AllFresh (m ∷ ms) = FreshIds m.env × AllFresh ms

-- No table holds a key twice.
pub record UniqueTables (s : Db) : Type 0 where
  pub users : UniqueKeys (λ (u : User). u.id) s.users
  pub projects : UniqueKeys (λ (p : Project). p.id) s.projects
  pub tickets : UniqueKeys (λ (t : Ticket). t.id) s.tickets
  pub comments : UniqueKeys (λ (c : Comment). c.id) s.comments
  pub attachments : UniqueKeys (λ (a : Attachment). a.id) s.attachments

module _ (issuer : TokenIssuer) (verify : Verifier) where
  pub handle_later : (env : Env) (s : Db) → Later s (handle env s).1
  unfolding handle
  handle_later env s =
      let (r, t) = run_escalation env s in go r t ((run_escalation-Respects env).at s)
    where
      go :
          (r : Result ℕ) (t : Db)
          → Later s t
          → Later s
              (let q : Result Unit × Db = elim r [ ok n ↦ (ok tt, t) | err e ↦ (ok tt, t) ] in q).1
      go (ok n) t l = l
      go (err e) t l = l

  happen-Onward :
      (env : Env) → FreshIds env → (e : Event) (s : Db) → Onward s (happen issuer verify env e s)
  unfolding happen
  happen-Onward env fresh (request req) s = serve-Onward env fresh issuer verify req s
  happen-Onward env fresh escalation_tick s = Onward-Later s _ (handle_later env s)
  happen-Onward env fresh token_sweep s = sweep-Onward env s

  pub run-Onward : (ms : List Moment) → AllFresh ms → (s : Db) → Onward s (run issuer verify ms s)
  unfolding run
  run-Onward [] fresh s = Onward-Later s s (Later_refl s)
  run-Onward (m ∷ ms) fresh s =
      let t = happen issuer verify m.env m.event s in
      Onward-trans s t (run issuer verify ms t) (happen-Onward m.env fresh.0 m.event s)
        (run-Onward ms fresh.1 t)

  -- The row of a ticket after a run.
  run-TicketBecomes :
      (ms : List Moment)
      → AllFresh ms
      → (s : Db) → UniqueTables s
      → (id : ℕ) (t : Ticket) → find_one (is_ticket id) s.tickets ≡ some t
      → (t' : Ticket) × (find_one (is_ticket id) (run issuer verify ms s).tickets ≡ some t')
        × TicketBecomes t t'
  run-TicketBecomes ms fresh s u id t found =
      let l = run-Onward ms fresh s in
      Descends-find_one Ticket-Becoming id s.tickets _ (l.tickets u.tickets).1 found

  -- If the generated keys are new and no table holds a key twice at first, then whatever is served in between,
  -- a ticket keeps its id, its project and its time of creation, and its status never moves back.
  pub run-status_index :
      (ms : List Moment)
      → AllFresh ms
      → (s : Db) → UniqueTables s
      → (id : ℕ) (t : Ticket) → find_one (is_ticket id) s.tickets ≡ some t
      → (t' : Ticket) × (find_one (is_ticket id) (run issuer verify ms s).tickets ≡ some t')
        × (t'.id ≡ t.id)
        × (t'.project_id ≡ t.project_id)
        × (t'.created_at ≡ t.created_at)
        × (status_index t.status ≤ status_index t'.status)
  run-status_index ms fresh s u id t found =
      let (t', there, h) = run-TicketBecomes ms fresh s u id t found in
      (t', there, h.id, h.project_id, h.created_at, h.forward)

  -- If the generated keys are new and no table holds a key twice at first, then a ticket that is DONE is DONE
  -- after any run, with the title, description, priority, type, assignee, due date and overdue flag it had.
  pub run-done :
      (ms : List Moment)
      → AllFresh ms
      → (s : Db) → UniqueTables s
      → (id : ℕ) (t : Ticket) → find_one (is_ticket id) s.tickets ≡ some t
      → t.status ≡ done
      → (t' : Ticket) × (find_one (is_ticket id) (run issuer verify ms s).tickets ≡ some t')
        × (t'.status ≡ done)
        × (t'.title ≡ t.title)
        × (t'.description ≡ t.description)
        × (t'.priority ≡ t.priority)
        × (t'.type ≡ t.type)
        × (t'.assignee_id ≡ t.assignee_id)
        × (t'.due_date ≡ t.due_date)
        × (t'.is_overdue ≡ t.is_overdue)
  run-done ms fresh s u id t found e =
      let (t', there, h) = run-TicketBecomes ms fresh s u id t found in
      (
        t',
        there,
        done_last t t' e h.forward,
        h.final_title e,
        h.final_description e,
        h.final_priority e,
        h.final_type e,
        h.final_assignee_id e,
        h.final_due_date e,
        h.final_is_overdue e,
      )

  -- If the generated keys are new and no two users that are not deleted share a username or an email at
  -- first, none do after any run.
  pub run-NoClash :
      (ms : List Moment)
      → AllFresh ms
      → (s : Db) → UniqueTables s
      → NoClash s.users
      → NoClash (run issuer verify ms s).users
  run-NoClash ms fresh s u n = (run-Onward ms fresh s).distinct_users u.users n

  -- If the generated keys are new, no table holds a key twice, and every dependency joins two different
  -- tickets of one project at first, then after any run every dependency does.
  pub run-AllJoin :
      (ms : List Moment)
      → AllFresh ms
      → (s : Db) → UniqueTables s
      → AllJoin s.tickets (ends_of s)
      → AllJoin (run issuer verify ms s).tickets (ends_of (run issuer verify ms s))
  run-AllJoin ms fresh s u a = (run-Onward ms fresh s).joined u.tickets a

  -- If the generated keys are new, every audit row stays what and where it is, whatever is served.
  pub run-audit_logs :
      (ms : List Moment)
      → AllFresh ms
      → (s : Db) → IsPrefix s.audit_logs (run issuer verify ms s).audit_logs
  run-audit_logs ms fresh s = (run-Onward ms fresh s).audit_logs
