-- ===== src/Migrations/Steps/CreateTickets.antt =====
-- src/migrations/1700000005000-CreateTickets.ts
use issueflow.Prelude.{List, [], ◌∷◌}
use issueflow.Migrations.Sql.{
  boolean, int, serial, text, timestamp, timestamptz, varchar, enum_type, now, default_false,
  default_one, restrict, set_null, primary_key, foreign_key, Table, EnumType, Statement,
  create_type, drop_type, create_table, drop_table, create_index, drop_index, required, optional,
  defaulted, index_on,
}

abbrev tickets_status_enum : EnumType
tickets_status_enum = record {
  name = "tickets_status_enum";
  labels = "TODO" ∷ "IN_PROGRESS" ∷ "IN_REVIEW" ∷ "DONE" ∷ [];
}

abbrev tickets_priority_enum : EnumType
tickets_priority_enum = record {
  name = "tickets_priority_enum";
  labels = "LOW" ∷ "MEDIUM" ∷ "HIGH" ∷ "CRITICAL" ∷ [];
}

abbrev tickets_type_enum : EnumType
tickets_type_enum = record {
  name = "tickets_type_enum";
  labels = "BUG" ∷ "FEATURE" ∷ "TECHNICAL" ∷ [];
}

abbrev tickets : Table
tickets = record {
  name = "tickets";
  columns =
      required "id" serial
      ∷ required "title" (varchar 255)
      ∷ required "description" text
      ∷ required "status" (enum_type "tickets_status_enum")
      ∷ required "priority" (enum_type "tickets_priority_enum")
      ∷ required "type" (enum_type "tickets_type_enum")
      ∷ required "projectId" int
      ∷ optional "assigneeId" int
      ∷ optional "dueDate" timestamptz
      ∷ defaulted "isOverdue" boolean default_false
      ∷ defaulted "autoEscalationPaused" boolean default_false
      ∷ defaulted "version" int default_one
      ∷ defaulted "deletedByCascade" boolean default_false
      ∷ defaulted "createdAt" timestamp now
      ∷ defaulted "updatedAt" timestamp now
      ∷ optional "deletedAt" timestamp
      ∷ [];
  constraints =
      primary_key "PK_tickets" "id"
      ∷ foreign_key "FK_tickets_projectId" "projectId" "projects" "id" restrict
      ∷ foreign_key "FK_tickets_assigneeId" "assigneeId" "users" "id" set_null
      ∷ [];
}

abbrev pub up : List Statement
up =
    create_type tickets_status_enum
    ∷ create_type tickets_priority_enum
    ∷ create_type tickets_type_enum
    ∷ create_table tickets
    ∷ create_index (index_on "IDX_tickets_projectId" "tickets" ("projectId" ∷ []))
    ∷ create_index (index_on "IDX_tickets_assigneeId" "tickets" ("assigneeId" ∷ []))
    ∷ []

abbrev pub down : List Statement
down =
    drop_index "IDX_tickets_assigneeId"
    ∷ drop_index "IDX_tickets_projectId"
    ∷ drop_table "tickets"
    ∷ drop_type "tickets_type_enum"
    ∷ drop_type "tickets_priority_enum"
    ∷ drop_type "tickets_status_enum"
    ∷ []
