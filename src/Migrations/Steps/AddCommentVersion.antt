-- ===== src/Migrations/Steps/AddCommentVersion.antt =====
-- src/migrations/1700000010000-AddCommentVersion.ts
use issueflow.Prelude.{List, [], ◌∷◌}
use issueflow.Migrations.Sql.{int, default_one, Statement, add_column, drop_column, defaulted}

abbrev pub up : List Statement
up = add_column "comments" (defaulted "version" int default_one) ∷ []

abbrev pub down : List Statement
down = drop_column "comments" "version" ∷ []
