-- ===== src/Migrations/Steps/CreateTicketDependencies.antt =====
-- src/migrations/1700000008000-CreateTicketDependencies.ts
use issueflow.Prelude.{List, [], ◌∷◌}
use issueflow.Migrations.Sql.{
  int, serial, timestamp, now, restrict, primary_key, foreign_key, Table, Statement, create_table,
  drop_table, create_index, drop_index, required, defaulted, unique_on,
}

abbrev ticket_dependencies : Table
ticket_dependencies = record {
  name = "ticket_dependencies";
  columns =
      required "id" serial
      ∷ required "ticketId" int
      ∷ required "blockerId" int
      ∷ defaulted "createdAt" timestamp now
      ∷ [];
  constraints =
      primary_key "PK_ticket_dependencies" "id"
      ∷ foreign_key "FK_ticket_dependencies_ticketId" "ticketId" "tickets" "id" restrict
      ∷ foreign_key "FK_ticket_dependencies_blockerId" "blockerId" "tickets" "id" restrict
      ∷ [];
}

abbrev pub up : List Statement
up =
    create_table ticket_dependencies
    ∷ create_index
        (unique_on "UQ_ticket_dependency" "ticket_dependencies" ("ticketId" ∷ "blockerId" ∷ []))
    ∷ []

abbrev pub down : List Statement
down = drop_index "UQ_ticket_dependency" ∷ drop_table "ticket_dependencies" ∷ []
