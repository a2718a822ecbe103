-- ===== src/Migrations/Steps/AddSoftDeleteToCascadeChildren.antt =====
-- src/migrations/1700000012000-AddSoftDeleteToCascadeChildren.ts
use issueflow.Prelude.{List, [], ◌∷◌}
use issueflow.Migrations.Sql.{timestamptz, Statement, add_column, drop_column, optional}

abbrev pub up : List Statement
up =
    add_column "comments" (optional "deletedAt" timestamptz)
    ∷ add_column "attachments" (optional "deletedAt" timestamptz)
    ∷ add_column "ticket_dependencies" (optional "deletedAt" timestamptz)
    ∷ []

abbrev pub down : List Statement
down =
    drop_column "ticket_dependencies" "deletedAt"
    ∷ drop_column "attachments" "deletedAt"
    ∷ drop_column "comments" "deletedAt"
    ∷ []
