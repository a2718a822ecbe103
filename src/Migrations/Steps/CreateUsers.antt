-- ===== src/Migrations/Steps/CreateUsers.antt =====
-- src/migrations/1700000002000-CreateUsers.ts
use issueflow.Prelude.{List, [], ◌∷◌}
use issueflow.Migrations.Sql.{
  serial, timestamptz, varchar, enum_type, now, primary_key, Table, EnumType, Statement,
  create_type, drop_type, create_table, drop_table, create_index, drop_index, required, optional,
  defaulted, unique_live_on,
}

abbrev users_role_enum : EnumType
users_role_enum = record { name = "users_role_enum"; labels = "ADMIN" ∷ "DEVELOPER" ∷ [] }

abbrev users : Table
users = record {
  name = "users";
  columns =
      required "id" serial
      ∷ required "username" (varchar 255)
      ∷ required "email" (varchar 255)
      ∷ required "fullName" (varchar 255)
      ∷ required "role" (enum_type "users_role_enum")
      ∷ required "passwordHash" (varchar 255)
      ∷ defaulted "createdAt" timestamptz now
      ∷ defaulted "updatedAt" timestamptz now
      ∷ optional "deletedAt" timestamptz
      ∷ [];
  constraints = primary_key "PK_users" "id" ∷ [];
}

abbrev pub up : List Statement
up =
    create_type users_role_enum
    ∷ create_table users
    ∷ create_index (unique_live_on "UQ_users_username" "users" ("username" ∷ []))
    ∷ create_index (unique_live_on "UQ_users_email" "users" ("email" ∷ []))
    ∷ []

abbrev pub down : List Statement
down =
    drop_index "UQ_users_email"
    ∷ drop_index "UQ_users_username"
    ∷ drop_table "users"
    ∷ drop_type "users_role_enum"
    ∷ []
