-- ===== src/Migrations/Steps/CreateInvalidatedTokens.antt =====
-- src/migrations/1700000003000-CreateInvalidatedTokens.ts
use issueflow.Prelude.{List, [], ◌∷◌}
use issueflow.Migrations.Sql.{
  uuid, timestamptz, primary_key, Table, Statement, create_table, drop_table, required,
}

abbrev invalidated_tokens : Table
invalidated_tokens = record {
  name = "invalidated_tokens";
  columns = required "jti" uuid ∷ required "expiresAt" timestamptz ∷ [];
  constraints = primary_key "PK_invalidated_tokens" "jti" ∷ [];
}

abbrev pub up : List Statement
up = create_table invalidated_tokens ∷ []

abbrev pub down : List Statement
down = drop_table "invalidated_tokens" ∷ []
