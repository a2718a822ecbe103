-- ===== src/Migrations/Steps/CreateAttachments.antt =====
-- src/migrations/1700000009000-CreateAttachments.ts
use issueflow.Prelude.{List, [], ◌∷◌}
use issueflow.Migrations.Sql.{
  bytea, int, serial, timestamp, varchar, now, restrict, set_null, primary_key, foreign_key, Table,
  Statement, create_table, drop_table, create_index, drop_index, required, optional, defaulted,
  index_on,
}

abbrev attachments : Table
attachments = record {
  name = "attachments";
  columns =
      required "id" serial
      ∷ required "ticketId" int
      ∷ required "filename" (varchar 255)
      ∷ required "contentType" (varchar 100)
      ∷ required "sizeBytes" int
      ∷ required "data" bytea
      ∷ optional "uploadedBy" int
      ∷ defaulted "uploadedAt" timestamp now
      ∷ [];
  constraints =
      primary_key "PK_attachments" "id"
      ∷ foreign_key "FK_attachments_ticketId" "ticketId" "tickets" "id" restrict
      ∷ foreign_key "FK_attachments_uploadedBy" "uploadedBy" "users" "id" set_null
      ∷ [];
}

abbrev pub up : List Statement
up =
    create_table attachments
    ∷ create_index (index_on "IDX_attachments_ticketId" "attachments" ("ticketId" ∷ []))
    ∷ []

abbrev pub down : List Statement
down = drop_index "IDX_attachments_ticketId" ∷ drop_table "attachments" ∷ []
