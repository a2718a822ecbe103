-- ===== src/Migrations/Labels.antt =====
-- common/enums/*.ts: the values of the members, which the columns of an enum type hold.
use issueflow.Prelude.{String, List, [], ◌∷◌, map}
use issueflow.Enums.{
  TicketStatus, todo, in_progress, in_review, done, TicketPriority, low, medium, high, critical,
  TicketType, bug, feature, technical, UserRole, admin, developer, ActorType, by_user, by_system,
  EntityType, user_entity, project_entity, ticket_entity, comment_entity, attachment_entity,
  dependency_entity, AuditAction, create_action, update_action, delete_action, restore_action,
  auto_escalate, auto_assign, login_action, login_failed, ticket_status_order,
  ticket_priority_order,
}

abbrev pub status_value : TicketStatus → String
status_value todo = "TODO"
status_value in_progress = "IN_PROGRESS"
status_value in_review = "IN_REVIEW"
status_value done = "DONE"

abbrev pub priority_value : TicketPriority → String
priority_value low = "LOW"
priority_value medium = "MEDIUM"
priority_value high = "HIGH"
priority_value critical = "CRITICAL"

abbrev pub type_value : TicketType → String
type_value bug = "BUG"
type_value feature = "FEATURE"
type_value technical = "TECHNICAL"

abbrev pub role_value : UserRole → String
role_value admin = "ADMIN"
role_value developer = "DEVELOPER"

abbrev pub actor_value : ActorType → String
actor_value by_user = "USER"
actor_value by_system = "SYSTEM"

abbrev pub entity_value : EntityType → String
entity_value user_entity = "USER"
entity_value project_entity = "PROJECT"
entity_value ticket_entity = "TICKET"
entity_value comment_entity = "COMMENT"
entity_value attachment_entity = "ATTACHMENT"
entity_value dependency_entity = "DEPENDENCY"

abbrev pub action_value : AuditAction → String
action_value create_action = "CREATE"
action_value update_action = "UPDATE"
action_value delete_action = "DELETE"
action_value restore_action = "RESTORE"
action_value auto_escalate = "AUTO_ESCALATE"
action_value auto_assign = "AUTO_ASSIGN"
action_value login_action = "LOGIN"
action_value login_failed = "LOGIN_FAILED"

-- What TypeORM makes of `enum: E`: the values of the members of `E`.
abbrev pub status_labels : List String
status_labels = map status_value ticket_status_order

abbrev pub priority_labels : List String
priority_labels = map priority_value ticket_priority_order

abbrev pub type_labels : List String
type_labels = map type_value (bug ∷ feature ∷ technical ∷ [])

abbrev pub role_labels : List String
role_labels = map role_value (admin ∷ developer ∷ [])

abbrev pub actor_labels : List String
actor_labels = map actor_value (by_user ∷ by_system ∷ [])

abbrev pub entity_labels : List String
entity_labels = map entity_value (
    user_entity ∷ project_entity ∷ ticket_entity ∷ comment_entity ∷ attachment_entity
    ∷ dependency_entity ∷ [])

abbrev pub action_labels : List String
action_labels = map action_value (
    create_action ∷ update_action ∷ delete_action ∷ restore_action ∷ auto_escalate ∷ auto_assign
    ∷ login_action ∷ login_failed ∷ [])
