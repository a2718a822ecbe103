-- ===== src/Migrations/Steps/DropTicketAutoEscalationPaused.antt =====
-- src/migrations/1700000011000-DropTicketAutoEscalationPaused.ts
use issueflow.Prelude.{List, [], ◌∷◌}
use issueflow.Migrations.Sql.{boolean, default_false, Statement, add_column, drop_column, defaulted}

abbrev pub up : List Statement
up = drop_column "tickets" "autoEscalationPaused" ∷ []

abbrev pub down : List Statement
down = add_column "tickets" (defaulted "autoEscalationPaused" boolean default_false) ∷ []
