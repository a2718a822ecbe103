-- ===== src/Tests/Runs.antt =====
-- A run of the application on the database of the samples: a look, a change, two timers and a new ticket.
use issueflow.Prelude.{
  ◌≤◌, false, any, text_eq, ◌≡◌, refl, arith, true, none, some, List, [], ◌∷◌, find_one, contains,
}
use issueflow.Enums.{
  done, status_index, todo, in_review, low, critical, bug, ticket_entity, auto_escalate,
}
use issueflow.Entities.{User, Ticket}
use issueflow.Store.{Db}
use issueflow.Audit.{record_entry, input, system_actor}
use issueflow.Auth.{JwtPayload, logout}
use issueflow.Tickets.Base.{is_ticket}
use issueflow.Tickets.Create.{CreateTicketDto}
use issueflow.Escalation.{is_past_due}
use issueflow.Escalation.Schedule.{handle}
use issueflow.Api.Endpoints.{Endpoint, update_ticket, create_ticket, list_users, is_public}
use issueflow.Api.Pipeline.{Request, serve}
use issueflow.Api.Access.{Refused}
use issueflow.History.Ends.{AllJoin, ends_of}
use issueflow.History.Later.{IsPrefix}
use issueflow.History.Runs.{
  Moment, request, escalation_tick, token_sweep, AllFresh, UniqueTables, run, run-status_index,
  run-done, run-audit_logs, run-NoClash, run-AllJoin,
}
use issueflow.History.Accounts.{run-Refused}
use issueflow.History.Revocation.{run-revoked}
use issueflow.History.Overdue.{handle-critical}
use issueflow.Http.{print_etag}
use issueflow.Users
use issueflow.Users.Unique.{NoClash}
use issueflow.Tests.Samples.{first, ann, bob, second, third, db, move_to}
use issueflow.Tests.Signing.{
  issuer, expiry, read_token, read_token-sign, sign, fresh_at, fresh_at-FreshIds,
}

abbrev signed : JwtPayload
signed = record {
  sub = 1;
  username = 97 ∷ [];
  role = some ann.role;
  jti = some (7 ∷ []);
  exp = none;
}

abbrev asks : Endpoint → Request
asks e = record { token = some (sign signed); if_match_header = some (print_etag 1); endpoint = e }

abbrev wanted : CreateTicketDto
wanted = record {
  title = 116 ∷ [];
  description = [];
  status = todo;
  priority = low;
  type = bug;
  project_id = 1;
  assignee_id = none;
  due_date = none;
}

abbrev day : List Moment
day =
    record { env = fresh_at 100; event = request (asks list_users) }
    ∷ record { env = fresh_at 110; event = request (asks (update_ticket 1 (move_to in_review))) }
    ∷ record { env = fresh_at 120; event = escalation_tick }
    ∷ record { env = fresh_at 130; event = token_sweep }
    ∷ record { env = fresh_at 140; event = request (asks (create_ticket wanted)) }
    ∷ []

day-AllFresh : AllFresh day
day-AllFresh = (
  fresh_at-FreshIds 100,
  (
    fresh_at-FreshIds 110,
    (fresh_at-FreshIds 120, (fresh_at-FreshIds 130, (fresh_at-FreshIds 140, tt))),
  ),
)

db-UniqueTables : UniqueTables db
unfolding contains
db-UniqueTables = record {
  users = (refl, (refl, tt));
  projects = (refl, tt);
  tickets = (refl, (refl, (refl, tt)));
  comments = tt;
  attachments = (refl, tt);
}

run-status_index_example :
    (t : Ticket) × (find_one (is_ticket 1) (run issuer read_token day db).tickets ≡ some t)
    × (t.id ≡ 1)
    × (t.project_id ≡ 1)
    × (t.created_at ≡ 7)
    × (2 ≤ status_index t.status)
unfolding find_one
run-status_index_example =
    run-status_index issuer read_token day day-AllFresh db db-UniqueTables 1 first refl

run-done_example :
    (t : Ticket) × (find_one (is_ticket 3) (run issuer read_token day db).tickets ≡ some t)
    × (t.status ≡ done)
    × (t.title ≡ 116 ∷ [])
    × (t.description ≡ [])
    × (t.priority ≡ low)
    × (t.type ≡ bug)
    × (t.assignee_id ≡ some 2)
    × (t.due_date ≡ none)
    × (t.is_overdue ≡ false)
unfolding find_one
run-done_example = run-done issuer read_token day day-AllFresh db db-UniqueTables 3 third refl refl

db-NoClash : NoClash db.users
unfolding any Users.clashes text_eq
db-NoClash = ((λ live. refl), ((λ live. refl), tt))

run-NoClash_example : NoClash (run issuer read_token day db).users
run-NoClash_example = run-NoClash issuer read_token day day-AllFresh db db-UniqueTables db-NoClash

db-AllJoin : AllJoin db.tickets (ends_of db)
unfolding find_one
db-AllJoin = (((λ e. absurd (omega (arith, e))), first, third, refl, refl, refl), tt)

run-AllJoin_example :
    AllJoin (run issuer read_token day db).tickets (ends_of (run issuer read_token day db))
run-AllJoin_example = run-AllJoin issuer read_token day day-AllFresh db db-UniqueTables db-AllJoin

-- A database whose log has a row.
abbrev logged : Db
logged = (record_entry (fresh_at 90) (input auto_escalate ticket_entity 2 system_actor none) db).1

run-audit_logs_example : IsPrefix logged.audit_logs (run issuer read_token day logged).audit_logs
run-audit_logs_example = run-audit_logs issuer read_token day day-AllFresh logged

abbrev gone : User
gone = record ann { deleted_at = some 95 }

abbrev without_ann : Db
without_ann = record db { users = gone ∷ bob ∷ [] }

without_ann-UniqueTables : UniqueTables without_ann
unfolding contains
without_ann-UniqueTables = record {
  users = (refl, (refl, tt));
  projects = (refl, tt);
  tickets = (refl, (refl, (refl, tt)));
  comments = tt;
  attachments = (refl, tt);
}

run-Refused_example :
    (let s' = run issuer read_token day without_ann in
      Refused
        (serve (fresh_at 150) issuer read_token (asks list_users) s').0
        s'
        (serve (fresh_at 150) issuer read_token (asks list_users) s').1)
unfolding find_one is_public
run-Refused_example =
    run-Refused issuer read_token day day-AllFresh without_ann without_ann-UniqueTables gone
      (record signed { exp = some expiry }) (fresh_at 150) (asks list_users) refl (λ e. absurd (cc))
      (read_token-sign signed) refl

run-revoked_example :
    (let s' = run issuer read_token day (logout (fresh_at 85) (7 ∷ []) 1 expiry db).1 in
      Refused
        (serve (fresh_at 150) issuer read_token (asks list_users) s').0
        s'
        (serve (fresh_at 150) issuer read_token (asks list_users) s').1)
unfolding is_public
run-revoked_example =
    run-revoked issuer read_token (fresh_at 150) (7 ∷ []) day (fresh_at 85) 1 expiry db day-AllFresh
      (omega arith, (omega arith, (omega arith, (omega arith, (omega arith, tt))))) (omega arith)
      (asks list_users) (record signed { exp = some expiry }) refl (read_token-sign signed) refl

handle-critical_example :
    (let s' = (handle (fresh_at 300) (handle (fresh_at 200) (handle (fresh_at 100) db).1).1).1 in
      (u : Ticket) × (find_one (is_ticket 2) s'.tickets ≡ some u)
      × (u.priority ≡ critical)
      × (u.is_overdue ≡ true))
unfolding find_one contains is_past_due
handle-critical_example =
    handle-critical (fresh_at 100) (fresh_at 200) (fresh_at 300) db 2 second
      (refl, (refl, (refl, tt))) (omega arith) (omega arith) refl refl
