-- ===== src/Migrations/Steps.antt =====
-- src/migrations: the migrations, in the order of their timestamps.
use issueflow.Prelude.{Option, none, some, List, [], ◌∷◌}
use issueflow.Migrations.Sql.{Schema, Statement, run}
mod CreateUsers
mod CreateInvalidatedTokens
mod CreateProjects
mod CreateTickets
mod CreateComments
mod CreateAuditLog
mod CreateTicketDependencies
mod CreateAttachments
mod AddCommentVersion
mod DropTicketAutoEscalationPaused
mod AddSoftDeleteToCascadeChildren
mod AddDeletedByCascadeToChildren

pub data Migration : Type 0 where
  create_users : Migration
  create_invalidated_tokens : Migration
  create_projects : Migration
  create_tickets : Migration
  create_comments : Migration
  create_audit_log : Migration
  create_ticket_dependencies : Migration
  create_attachments : Migration
  add_comment_version : Migration
  drop_ticket_auto_escalation_paused : Migration
  add_soft_delete_to_cascade_children : Migration
  add_deleted_by_cascade_to_children : Migration

unfoldable pub up : Migration → List Statement
up create_users = CreateUsers.up
up create_invalidated_tokens = CreateInvalidatedTokens.up
up create_projects = CreateProjects.up
up create_tickets = CreateTickets.up
up create_comments = CreateComments.up
up create_audit_log = CreateAuditLog.up
up create_ticket_dependencies = CreateTicketDependencies.up
up create_attachments = CreateAttachments.up
up add_comment_version = AddCommentVersion.up
up drop_ticket_auto_escalation_paused = DropTicketAutoEscalationPaused.up
up add_soft_delete_to_cascade_children = AddSoftDeleteToCascadeChildren.up
up add_deleted_by_cascade_to_children = AddDeletedByCascadeToChildren.up

unfoldable pub down : Migration → List Statement
down create_users = CreateUsers.down
down create_invalidated_tokens = CreateInvalidatedTokens.down
down create_projects = CreateProjects.down
down create_tickets = CreateTickets.down
down create_comments = CreateComments.down
down create_audit_log = CreateAuditLog.down
down create_ticket_dependencies = CreateTicketDependencies.down
down create_attachments = CreateAttachments.down
down add_comment_version = AddCommentVersion.down
down drop_ticket_auto_escalation_paused = DropTicketAutoEscalationPaused.down
down add_soft_delete_to_cascade_children = AddSoftDeleteToCascadeChildren.down
down add_deleted_by_cascade_to_children = AddDeletedByCascadeToChildren.down

-- The order of the timestamps in the file names, in which TypeORM runs the migrations; it reverts
-- from the last one.
abbrev pub all_migrations : List Migration
all_migrations =
    create_users ∷ create_invalidated_tokens ∷ create_projects ∷ create_tickets ∷ create_comments
    ∷ create_audit_log ∷ create_ticket_dependencies ∷ create_attachments ∷ add_comment_version
    ∷ drop_ticket_auto_escalation_paused ∷ add_soft_delete_to_cascade_children
    ∷ add_deleted_by_cascade_to_children ∷ []

unfoldable pub migrate : List Migration → Schema → Option Schema
migrate [] s = some s
migrate (m ∷ ms) s = elim (run (up m) s) [ none ↦ none | some t ↦ migrate ms t ]

unfoldable pub revert : List Migration → Schema → Option Schema
revert [] s = some s
revert (m ∷ ms) s = elim (revert ms s) [ none ↦ none | some t ↦ run (down m) t ]
