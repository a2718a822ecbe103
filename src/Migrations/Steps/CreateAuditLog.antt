-- ===== src/Migrations/Steps/CreateAuditLog.antt =====
-- src/migrations/1700000007000-CreateAuditLog.ts
use issueflow.Prelude.{List, [], ◌∷◌}
use issueflow.Migrations.Sql.{
  int, jsonb, serial, timestamp, enum_type, now, set_null, primary_key, foreign_key, Table,
  EnumType, Statement, create_type, drop_type, create_table, drop_table, create_index, drop_index,
  required, optional, defaulted, index_on,
}

abbrev audit_logs_action_enum : EnumType
audit_logs_action_enum = record {
  name = "audit_logs_action_enum";
  labels =
      "CREATE" ∷ "UPDATE" ∷ "DELETE" ∷ "RESTORE" ∷ "AUTO_ASSIGN" ∷ "AUTO_ESCALATE" ∷ "LOGIN"
      ∷ "LOGIN_FAILED" ∷ [];
}

abbrev audit_logs_entity_type_enum : EnumType
audit_logs_entity_type_enum = record {
  name = "audit_logs_entityType_enum";
  labels = "USER" ∷ "PROJECT" ∷ "TICKET" ∷ "COMMENT" ∷ "ATTACHMENT" ∷ "DEPENDENCY" ∷ [];
}

abbrev audit_logs_actor_enum : EnumType
audit_logs_actor_enum = record { name = "audit_logs_actor_enum"; labels = "USER" ∷ "SYSTEM" ∷ [] }

abbrev audit_logs : Table
audit_logs = record {
  name = "audit_logs";
  columns =
      required "id" serial
      ∷ required "action" (enum_type "audit_logs_action_enum")
      ∷ required "entityType" (enum_type "audit_logs_entityType_enum")
      ∷ required "entityId" int
      ∷ optional "performedBy" int
      ∷ required "actor" (enum_type "audit_logs_actor_enum")
      ∷ optional "metadata" jsonb
      ∷ defaulted "timestamp" timestamp now
      ∷ [];
  constraints =
      primary_key "PK_audit_logs" "id"
      ∷ foreign_key "FK_audit_logs_performedBy" "performedBy" "users" "id" set_null
      ∷ [];
}

abbrev pub up : List Statement
up =
    create_type audit_logs_action_enum
    ∷ create_type audit_logs_entity_type_enum
    ∷ create_type audit_logs_actor_enum
    ∷ create_table audit_logs
    ∷ create_index (index_on "IDX_audit_entity" "audit_logs" ("entityType" ∷ "entityId" ∷ []))
    ∷ []

abbrev pub down : List Statement
down =
    drop_index "IDX_audit_entity"
    ∷ drop_table "audit_logs"
    ∷ drop_type "audit_logs_actor_enum"
    ∷ drop_type "audit_logs_entityType_enum"
    ∷ drop_type "audit_logs_action_enum"
    ∷ []
