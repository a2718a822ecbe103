-- ===== src/Migrations/Steps/CreateProjects.antt =====
-- src/migrations/1700000004000-CreateProjects.ts
use issueflow.Prelude.{List, [], ◌∷◌}
use issueflow.Migrations.Sql.{
  int, serial, text, timestamp, varchar, now, primary_key, Table, Statement, create_table,
  drop_table, required, optional, defaulted,
}

abbrev projects : Table
projects = record {
  name = "projects";
  columns =
      required "id" serial
      ∷ required "name" (varchar 255)
      ∷ required "description" text
      ∷ required "ownerId" int
      ∷ defaulted "createdAt" timestamp now
      ∷ defaulted "updatedAt" timestamp now
      ∷ optional "deletedAt" timestamp
      ∷ [];
  constraints = primary_key "PK_projects" "id" ∷ [];
}

abbrev pub up : List Statement
up = create_table projects ∷ []

abbrev pub down : List Statement
down = drop_table "projects" ∷ []
