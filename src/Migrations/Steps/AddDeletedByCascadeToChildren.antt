-- ===== src/Migrations/Steps/AddDeletedByCascadeToChildren.antt =====
-- src/migrations/1700000013000-AddDeletedByCascadeToChildren.ts
use issueflow.Prelude.{List, [], ◌∷◌}
use issueflow.Migrations.Sql.{boolean, default_false, Statement, add_column, drop_column, defaulted}

abbrev pub up : List Statement
up =
    add_column "comments" (defaulted "deletedByCascade" boolean default_false)
    ∷ add_column "attachments" (defaulted "deletedByCascade" boolean default_false)
    ∷ add_column "ticket_dependencies" (defaulted "deletedByCascade" boolean default_false)
    ∷ []

abbrev pub down : List Statement
down =
    drop_column "ticket_dependencies" "deletedByCascade"
    ∷ drop_column "attachments" "deletedByCascade"
    ∷ drop_column "comments" "deletedByCascade"
    ∷ []
