-- ===== src/Tests/Exporting.antt =====
-- A project exported and imported again.
use issueflow.Prelude.{◌≡◌, ◌++◌, refl, arith, some, List, [], ◌∷◌, filter, any, map}
use issueflow.Entities.{Ticket}
use issueflow.Store.{Db, ok, ◌>>=◌}
use issueflow.Audit
use issueflow.Users
use issueflow.Projects
use issueflow.Tickets.Base
use issueflow.App.{app}
use issueflow.App.Frames.{app-Answers}
use issueflow.Csv.{CsvRow, row_from_ticket, import_tickets, export_tickets}
use issueflow.Csv.RoundTrip.{cells, AllCarried, import_tickets-export_tickets}
use issueflow.Tests.Samples.{env_at, first, third, db}

abbrev described : Ticket → Ticket
described t = record t { description = 100 ∷ [] }

abbrev olds : List Ticket
olds = described first ∷ described third ∷ []

abbrev db_described : Db
db_described = record db { tickets = olds }

abbrev rows : List CsvRow
rows = map row_from_ticket olds

exported :
    export_tickets (env_at 100) 1 (some 1) db_described
    ≡ (ok rows, (export_tickets (env_at 100) 1 (some 1) db_described).1)
unfolding export_tickets Base.find_all_for_project Projects.assert_active ◌>>=◌ filter any
    Audit.record_entry Audit.insert_row row_from_ticket
exported = refl

import_tickets-export_tickets_example :
    (news : List Ticket) × (s3 : Db) × (import_tickets
        (env_at 200)
        (app (env_at 200))
        1
        (map cells rows)
        (some 2)
        db_described
      ≡ (ok (record { created = 2; failed = 0; errors = [] }), s3))
    × AllCarried 1 olds news
    × (s3.tickets ≡ olds ++ news)
unfolding filter any Projects.exists_and_active Users.exists_and_active
import_tickets-export_tickets_example =
    import_tickets-export_tickets (λ xs. xs) (map cells) (env_at 100) (env_at 200)
      (app (env_at 200)) 1 1 (some 1) (some 2) db_described
      (export_tickets (env_at 100) 1 (some 1) db_described).1 db_described rows (λ xs. refl)
      (app-Answers (env_at 200)) (λ row. refl) exported (refl, (refl, tt)) refl (refl, (refl, tt))
      (omega arith)
