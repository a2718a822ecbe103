-- ===== src/Tests.antt =====
-- Runs of the services on the database of the samples, and the results applied to them.
pub mod Samples
mod Escalating
mod Editing
mod Exporting
mod Migrating
mod Mentioning
mod Access
pub mod Signing
mod Requests
mod Runs
mod Paging
use mathlib.Core.List.{Memᴰ}
use issueflow.Prelude.{
  ℕ, ◌≡◌, refl, true, false, Bool, Option, none, some, List, [], ◌∷◌, arith, contains, find_one,
  any, is_empty, filter, map, update_where, length, ltb, leb, ◌==◌, ◌&&◌, text_eq, not,
}
use issueflow.Enums
use issueflow.Enums.{
  done, in_review, in_progress, todo, developer, update_action, ticket_entity, by_user,
}
use issueflow.Entities.{Ticket, User, TicketDependency, Attachment, AuditLog, changes}
use issueflow.Store
use issueflow.Store.{Db, Env, ok, err, version_mismatch, status_backwards, unauthorized, ◌>>=◌}
use issueflow.Audit
use issueflow.Users
use issueflow.Tickets.Base
use issueflow.Tickets.Update
use issueflow.Tickets.Update.{update}
use issueflow.Tickets.Update.Rules
use issueflow.Tickets.Update.Laws
use issueflow.Tickets.Update.Laws.{update-Checked, update-error, update-update_stale}
use issueflow.App
use issueflow.App.{app}
use issueflow.Dependencies
use issueflow.Dependencies.Blocking.{update-blockers_done, app-IsQuiet}
use issueflow.Tests.Samples.{
  env_at, ann, bob, board, first, second, third, edge, picture, db, move_to,
}

run : Unit {0}
unfolding update Update.assert_editable Update.resolve_blockers Update.apply_status_change
    Update.apply_assignee_change Update.apply_scalar_patches Update.build_update_audit_metadata
    Update.save_with_version_guard Update.apply_update Base.assert_version_matches ◌>>=◌ find_one
    update_where filter contains app Dependencies.assert_blockers_resolved_for_done
    Dependencies.unresolved Audit.record_entry Audit.insert_row Audit.audit_row Audit.actor_of
run = tt

-- Ticket 1 is closed.
abbrev closed : Ticket
closed = record first { status = done; version = 2 }

abbrev db_closed : Db
db_closed = record db {
  tickets = closed ∷ second ∷ third ∷ [];
  audit_logs =
      record {
        id = 1;
        action = update_action;
        entity_type = ticket_entity;
        entity_id = 1;
        performed_by = some 1;
        actor = by_user;
        metadata = some (changes (some (in_review, done)) none);
        timestamp = 100;
      }
      ∷ [];
}

close :
    update (env_at 100) (app (env_at 100)) 1 (move_to done) (some 1) 1 db ≡ (ok closed, db_closed)
unfolding run
close = refl

update-Checked_example :
    (row : Ticket) × Laws.Checked 1 1 db row
    × Rules.Kept row closed
    × (db_closed ≡ record db {
      tickets = update_where (Base.is_ticket 1) (λ r. closed) db.tickets;
      audit_logs = db_closed.audit_logs;
    })
update-Checked_example =
    update-Checked (env_at 100) (app (env_at 100)) (app-IsQuiet (env_at 100)) 1 (move_to done)
      (some 1) 1 db closed db_closed close

back :
    update (env_at 100) (app (env_at 100)) 1 (move_to todo) (some 1) 1 db
    ≡ (err (status_backwards in_review todo), db)
unfolding run
back = refl

update-error_example : db ≡ db
update-error_example =
    update-error (env_at 100) (app (env_at 100)) (app-IsQuiet (env_at 100)) 1 (move_to todo)
      (some 1) 1 db (status_backwards in_review todo) back

-- Two people start ticket 2.
abbrev started : Ticket
started = record second { status = in_progress; version = 2 }

abbrev db_started : Db
db_started = (update (env_at 100) (app (env_at 100)) 2 (move_to in_progress) (some 1) 1 db).1

start :
    update (env_at 100) (app (env_at 100)) 2 (move_to in_progress) (some 1) 1 db
    ≡ (ok started, db_started)
unfolding run
start = refl

update-update_stale_example :
    update (env_at 100) (app (env_at 100)) 2 (move_to done) (some 2) 1 db_started
    ≡ (err (version_mismatch "Ticket" (some 2)), db_started)
update-update_stale_example =
    update-update_stale (env_at 100) (app (env_at 100)) (app-IsQuiet (env_at 100)) 2
      (move_to in_progress) (move_to done) (some 1) (some 2) 1 db started db_started start
      (omega arith) (ground arith)

update-blockers_done_example : done ≡ done
update-blockers_done_example =
    update-blockers_done (env_at 100) 1 (move_to done) (some 1) 1 db closed db_closed edge third
      close refl (Memᴰ.head refl) refl refl (Memᴰ.tail (Memᴰ.tail (Memᴰ.head refl))) refl refl
