-- ===== src/Tests/Access.antt =====
-- Tokens, imports and headers on the database of the samples.
use issueflow.Prelude.{
  ◌+◌, ◌≡◌, ◌≤◌, ◌≢◌, refl, false, none, some, List, [], ◌∷◌, ◌++◌, filter, find_one, any, length,
  All, is_empty,
}
use issueflow.Enums.{developer, todo, low, bug}
use issueflow.Entities.{Ticket}
use issueflow.Store.{Db, ok, ◌>>=◌}
use issueflow.Audit
use issueflow.Users
use issueflow.Users.{is_live_user}
use issueflow.Projects
use issueflow.Tickets.Create
use issueflow.Auth.{JwtPayload, CurrentUser, has_token, validate}
use issueflow.Auth.Tokens.{validate_sound}
use issueflow.Csv
use issueflow.Csv.{
  RawRow, ImportResult, import_tickets, max_import_rows, int_cell, blank_cell, nan_cell,
}
use issueflow.Csv.Accounting.{Imported, Within, import_tickets-counts}
use issueflow.Http.{if_match, print_etag, version_number}
use issueflow.Http.RoundTrip.{if_match-print_etag}
use issueflow.App.{app}
use issueflow.App.Frames.{app-IsReading}
use issueflow.Tests.Samples.{env_at, db}

abbrev token : JwtPayload
token = record {
  sub = 1;
  username = 97 ∷ [];
  role = some developer;
  jti = some (7 ∷ []);
  exp = some 500;
}

abbrev bearer : CurrentUser
bearer = record { id = 1; username = 97 ∷ []; role = developer; jti = 7 ∷ []; exp = 500 }

admits : validate (env_at 100) token db ≡ (ok bearer, db)
unfolding validate has_token Users.find_active_by_id ◌>>=◌ any find_one
admits = refl

validate_sound_example :
    (db ≡ db)
    × (token.jti ≡ some (7 ∷ []))
    × (token.exp ≡ some 500)
    × (token.role ≡ some developer)
    × (has_token (env_at 100) (7 ∷ []) db ≡ false)
    × (find_one (is_live_user 1) db.users ≢ none)
    × (1 ≡ token.sub)
    × (bearer.username ≡ token.username)
    × (is_empty bearer.jti ≡ false)
validate_sound_example = validate_sound (env_at 100) token db db bearer admits

-- The second record has no title.
abbrev sheet : List RawRow
sheet =
    record {
      title = 116 ∷ [];
      description = 100 ∷ [];
      status = some todo;
      priority = some low;
      type = some bug;
      assignee_id = int_cell 2;
    }
    ∷ record {
      title = [];
      description = 100 ∷ [];
      status = some todo;
      priority = some low;
      type = some bug;
      assignee_id = blank_cell;
    }
    ∷ []

abbrev imported : ImportResult
imported = record {
  created = 1;
  failed = 1;
  errors = record { row = 3; error = Csv.violations (Csv.title_is_not_empty ∷ []) } ∷ [];
}

imports :
    import_tickets (env_at 100) (app (env_at 100)) 1 sheet (some 1) db
    ≡ (ok imported, (import_tickets (env_at 100) (app (env_at 100)) 1 sheet (some 1) db).1)
unfolding import_tickets Csv.import_rows Csv.import_row Csv.validate_row Csv.ticket_from_row
    Csv.try_create Create.create Create.choose_assignee Create.insert_ticket Projects.assert_active
    Users.assert_active Audit.insert_row Audit.record_entry ◌>>=◌ any find_one filter
imports = refl

abbrev after_import : Db
after_import = (import_tickets (env_at 100) (app (env_at 100)) 1 sheet (some 1) db).1

import_tickets_example :
    (added : List Ticket) × (t : Db) × Imported
      (env_at 100)
      (app (env_at 100))
      1
      (some 1)
      2
      db
      sheet
      added
      imported.errors
      t
    × (after_import
        ≡ record db { tickets = db.tickets ++ added; audit_logs = after_import.audit_logs })
    × (1 ≡ length added)
    × (1 ≡ length imported.errors)
    × (imported.created + imported.failed ≡ length sheet)
    × (length sheet ≤ 5000)
    × All (Within 2 (2 + length sheet)) imported.errors
import_tickets_example =
    import_tickets-counts (env_at 100) (app (env_at 100)) 1 (some 1) (app-IsReading (env_at 100))
      sheet db after_import imported imports

if_match_example : if_match (some (print_etag 120)) ≡ version_number 120
if_match_example = if_match-print_etag 120
