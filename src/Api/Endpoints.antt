-- ===== src/Api/Endpoints.antt =====
-- The routes of the controllers, with the arguments that the pipes have made of the request, and
-- what their decorators say: `@Public` and `@Roles`.
use issueflow.Prelude.{ℕ, Text, Bool, true, false, Option, none, some, List, [], ◌∷◌}
use issueflow.Enums.{UserRole, admin, developer}
use issueflow.Audit.{AuditLogQuery}
use issueflow.Users.{CreateUserDto, UpdateUserDto}
use issueflow.Projects.{CreateProjectDto, UpdateProjectDto}
use issueflow.Tickets.Create.{CreateTicketDto}
use issueflow.Tickets.Update.{UpdateTicketDto}
use issueflow.Comments.Base.{CreateCommentDto}
use issueflow.Csv.{RawRow}
use issueflow.Auth.{LoginDto}
use issueflow.Api.Controllers.Hanging.{UploadedFile}

pub data Endpoint : Type 0 where
  get_health : Endpoint
  post_login : LoginDto → Endpoint
  post_logout get_me : Endpoint
  list_users : Endpoint
  get_user : ℕ → Endpoint
  create_user : CreateUserDto → Endpoint
  update_user : ℕ → UpdateUserDto → Endpoint
  delete_user : ℕ → Endpoint
  list_audit_logs : AuditLogQuery → Endpoint
  list_deleted_projects list_projects : Endpoint
  get_project : ℕ → Endpoint
  create_project : CreateProjectDto → Endpoint
  update_project : ℕ → UpdateProjectDto → Endpoint
  delete_project restore_project get_workload : ℕ → Endpoint
  list_deleted_tickets export_tickets list_tickets get_ticket : ℕ → Endpoint
  import_tickets : ℕ → List RawRow → Endpoint
  create_ticket : CreateTicketDto → Endpoint
  update_ticket : ℕ → UpdateTicketDto → Endpoint
  delete_ticket restore_ticket : ℕ → Endpoint
  list_comments : ℕ → Endpoint
  create_comment : ℕ → CreateCommentDto → Endpoint
  update_comment : (ticket_id comment_id : ℕ) → Text → Endpoint
  delete_comment : (ticket_id comment_id : ℕ) → Endpoint
  list_mentions : (user_id page page_size : ℕ) → Endpoint
  list_dependencies : ℕ → Endpoint
  add_dependency remove_dependency : (ticket_id blocked_by : ℕ) → Endpoint
  upload_attachment : ℕ → UploadedFile → Endpoint
  delete_attachment : (ticket_id attachment_id : ℕ) → Endpoint

-- `@Public()`.
unfoldable pub is_public : Endpoint → Bool
is_public get_health = true
is_public (post_login dto) = true
is_public _ = false

-- `@Roles(…)` of the handler or its class.
unfoldable pub required_roles : Endpoint → Option (List UserRole)
required_roles (create_user dto) = some (admin ∷ [])
required_roles (update_user id dto) = some (admin ∷ [])
required_roles (delete_user id) = some (admin ∷ [])
required_roles (list_audit_logs filter) = some (admin ∷ [])
required_roles list_deleted_projects = some (admin ∷ [])
required_roles (restore_project id) = some (admin ∷ [])
required_roles (get_workload id) = some (admin ∷ developer ∷ [])
required_roles (list_deleted_tickets id) = some (admin ∷ [])
required_roles (restore_ticket id) = some (admin ∷ [])
required_roles _ = none

-- `@IfMatch()` among the handler's parameters.
unfoldable pub wants_version : Endpoint → Bool
wants_version (update_ticket id dto) = true
wants_version (delete_ticket id) = true
wants_version (update_comment ticket_id comment_id content) = true
wants_version (delete_comment ticket_id comment_id) = true
wants_version _ = false
