-- ===== src/Migrations/Mapped.antt =====
-- */entities/*.entity.ts: the columns and indexes that the decorators declare, with the types that
-- TypeORM documents for PostgreSQL: `serial` for a generated key, `int` for a version, `timestamp`
-- for the dates it keeps, and a deletion date that may be null.
use issueflow.Prelude.{String, Bool, true, false, Option, none, some, List, [], ◌∷◌}
use issueflow.Migrations.Sql.{
  ColumnType, serial, int, text, boolean, jsonb, bytea, uuid, timestamp, timestamptz, varchar,
}
use issueflow.Migrations.Labels.{
  status_labels, priority_labels, type_labels, role_labels, actor_labels, entity_labels,
  action_labels,
}

-- `type: 'enum', enum: E` is `one_of` the values of E.
pub data Kind : Type 0 where
  plain : ColumnType → Kind
  one_of : List String → Kind

pub record Declared : Type 0 where
  pub name : String
  pub kind : Kind
  pub nullable : Bool

pub record DeclaredIndex : Type 0 where
  pub name : Option String
  pub columns : List String
  pub unique : Bool
  pub live_only : Bool

pub record Mapping : Type 0 where
  pub table : String
  pub columns : List Declared
  pub indexes : List DeclaredIndex

abbrev column : String → ColumnType → Declared
column n t = record { name = n; kind = plain t; nullable = false }

abbrev nullable_column : String → ColumnType → Declared
nullable_column n t = record { name = n; kind = plain t; nullable = true }

abbrev enum_column : String → List String → Declared
enum_column n ls = record { name = n; kind = one_of ls; nullable = false }

abbrev unique_index : String → List String → Bool → DeclaredIndex
unique_index n cs live = record { name = some n; columns = cs; unique = true; live_only = live }

-- `@Index()` on a column.
abbrev plain_index : String → DeclaredIndex
plain_index c = record { name = none; columns = c ∷ []; unique = false; live_only = false }

abbrev pub user_mapping : Mapping
user_mapping = record {
  table = "users";
  columns =
      column "id" serial
      ∷ column "username" (varchar 255)
      ∷ column "email" (varchar 255)
      ∷ column "fullName" (varchar 255)
      ∷ enum_column "role" role_labels
      ∷ column "passwordHash" (varchar 255)
      ∷ column "createdAt" timestamptz
      ∷ column "updatedAt" timestamptz
      ∷ nullable_column "deletedAt" timestamptz
      ∷ [];
  indexes =
      unique_index "UQ_users_username" ("username" ∷ []) true
      ∷ unique_index "UQ_users_email" ("email" ∷ []) true
      ∷ [];
}

abbrev pub project_mapping : Mapping
project_mapping = record {
  table = "projects";
  columns =
      column "id" serial
      ∷ column "name" (varchar 255)
      ∷ column "description" text
      ∷ column "ownerId" int
      ∷ column "createdAt" timestamp
      ∷ column "updatedAt" timestamp
      ∷ nullable_column "deletedAt" timestamp
      ∷ [];
  indexes = [];
}

abbrev pub ticket_mapping : Mapping
ticket_mapping = record {
  table = "tickets";
  columns =
      column "id" serial
      ∷ column "title" (varchar 255)
      ∷ column "description" text
      ∷ enum_column "status" status_labels
      ∷ enum_column "priority" priority_labels
      ∷ enum_column "type" type_labels
      ∷ column "projectId" int
      ∷ nullable_column "assigneeId" int
      ∷ nullable_column "dueDate" timestamptz
      ∷ column "isOverdue" boolean
      ∷ column "version" int
      ∷ column "deletedByCascade" boolean
      ∷ column "createdAt" timestamp
      ∷ column "updatedAt" timestamp
      ∷ nullable_column "deletedAt" timestamp
      ∷ [];
  indexes = [];
}

abbrev pub comment_mapping : Mapping
comment_mapping = record {
  table = "comments";
  columns =
      column "id" serial
      ∷ column "ticketId" int
      ∷ column "authorId" int
      ∷ column "content" text
      ∷ column "version" int
      ∷ column "deletedByCascade" boolean
      ∷ column "createdAt" timestamp
      ∷ column "updatedAt" timestamp
      ∷ nullable_column "deletedAt" timestamp
      ∷ [];
  indexes = plain_index "ticketId" ∷ [];
}

abbrev pub mention_mapping : Mapping
mention_mapping = record {
  table = "mentions";
  columns = column "id" serial ∷ column "commentId" int ∷ column "userId" int ∷ [];
  indexes = unique_index "UQ_mention_comment_user" ("commentId" ∷ "userId" ∷ []) false ∷ [];
}

-- The property `blockedBy` is the column `blockerId`.
abbrev pub ticket_dependency_mapping : Mapping
ticket_dependency_mapping = record {
  table = "ticket_dependencies";
  columns =
      column "id" serial
      ∷ column "ticketId" int
      ∷ column "blockerId" int
      ∷ column "deletedByCascade" boolean
      ∷ column "createdAt" timestamp
      ∷ nullable_column "deletedAt" timestamp
      ∷ [];
  indexes = unique_index "UQ_ticket_dependency" ("ticketId" ∷ "blockerId" ∷ []) false ∷ [];
}

abbrev pub attachment_mapping : Mapping
attachment_mapping = record {
  table = "attachments";
  columns =
      column "id" serial
      ∷ column "ticketId" int
      ∷ column "filename" (varchar 255)
      ∷ column "contentType" (varchar 100)
      ∷ column "sizeBytes" int
      ∷ column "data" bytea
      ∷ nullable_column "uploadedBy" int
      ∷ column "deletedByCascade" boolean
      ∷ column "uploadedAt" timestamp
      ∷ nullable_column "deletedAt" timestamp
      ∷ [];
  indexes = plain_index "ticketId" ∷ [];
}

abbrev pub invalidated_token_mapping : Mapping
invalidated_token_mapping = record {
  table = "invalidated_tokens";
  columns = column "jti" uuid ∷ column "expiresAt" timestamptz ∷ [];
  indexes = [];
}

abbrev pub audit_log_mapping : Mapping
audit_log_mapping = record {
  table = "audit_logs";
  columns =
      column "id" serial
      ∷ enum_column "action" action_labels
      ∷ enum_column "entityType" entity_labels
      ∷ column "entityId" int
      ∷ nullable_column "performedBy" int
      ∷ enum_column "actor" actor_labels
      ∷ nullable_column "metadata" jsonb
      ∷ column "timestamp" timestamp
      ∷ [];
  indexes = [];
}
