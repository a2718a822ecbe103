-- ===== src/Api/Pipeline.antt =====
-- A request on its way: JwtAuthGuard, RolesGuard, the handler of its route and the exception filter,
-- in the order in which app.module.ts provides them.
use issueflow.Prelude.{ℕ, Text, Option, none, some, if◌then◌else◌}
use issueflow.Enums.{UserRole}
use issueflow.Store.{
  Db, Env, Exec, Result, ok, err, bad_request, unauthorized, precondition_required, pure, or_raise,
  ◌>>=◌, ◌>>◌,
}
use issueflow.Auth.{CurrentUser, JwtPayload, TokenIssuer, validate}
use issueflow.Http.{version_number, header_required, malformed_header, if_match, can_activate}
use issueflow.App.{app, project_cascade}
use issueflow.Api.Responses.{Reply, Body}
use issueflow.Api.Errors.{HttpStatus, ok_status, ErrorBody, exception, catch}
use issueflow.Api.Endpoints.{Endpoint, is_public, required_roles}
use issueflow.Api.Controllers.Tickets
use issueflow.Api.Controllers.Projects
use issueflow.Api.Controllers.Users
use issueflow.Api.Controllers.Comments
use issueflow.Api.Controllers.Hanging

-- The bearer token and the If-Match header, where they are given, and the route.
pub record Request : Type 0 where
  pub token : Option Text
  pub if_match_header : Option Text
  pub endpoint : Endpoint

pub data Content : Type 0 where
  sent : Body → Content
  failed : ErrorBody → Content

pub record Response : Type 0 where
  pub status : HttpStatus
  pub etag : Option Text
  pub content : Content

-- What the JWT library makes of a token whose signature holds and that has not expired.
abbrev pub Verifier : Type 0
Verifier = Text → Option JwtPayload

-- `@CurrentUser()`.
unfoldable pub current_user : Option CurrentUser → Exec CurrentUser
current_user user = or_raise user (
    bad_request
      "CurrentUser is not available on this route — is the route public or is the JwtAuthGuard missing?")

-- `@IfMatch()`.
unfoldable pub expected_version : Option Text → Exec ℕ
expected_version header s = elim (if_match header) [
  | version_number n ↦ (ok n, s)
  | header_required ↦ (err (precondition_required "If-Match header is required"), s)
  | malformed_header ↦ (err (bad_request "Malformed If-Match header"), s)
]

abbrev pub payload_of : Verifier → Option Text → Option JwtPayload
payload_of verify none = none
payload_of verify (some token) = verify token

abbrev pub role_of : Option CurrentUser → Option UserRole
role_of none = none
role_of (some user) = some user.role

-- RolesGuard.
unfoldable pub roles_guard : Endpoint → Option CurrentUser → Exec Unit
roles_guard e user s = elim (can_activate (required_roles e) (role_of user)) [
  | ok b ↦ (ok tt, s)
  | err x ↦ (err x, s)
]

module _ (env : Env) (verify : Verifier) where
  -- The strategy behind `super.canActivate`.
  unfoldable pub authenticate : Option Text → Exec (Option CurrentUser)
  authenticate token = do
    payload ← or_raise (payload_of verify token) (unauthorized "Unauthorized")
    user ← validate env payload
    pure (some user)

  -- JwtAuthGuard.
  unfoldable pub jwt_guard : Endpoint → Option Text → Exec (Option CurrentUser)
  unfolding authenticate
  jwt_guard e token = if is_public e then pure none else authenticate token

module _ (env : Env) (issuer : TokenIssuer) where
  -- The handler of the route, behind its parameter decorators.
  unfoldable pub perform : Endpoint → Option CurrentUser → Option Text → Exec Reply
  unfolding current_user expected_version
  perform Endpoint.get_health user header = Users.health
  perform (Endpoint.post_login dto) user header = Users.login env issuer dto
  perform Endpoint.post_logout user header = do actor ← current_user user; Users.logout env actor
  perform Endpoint.get_me user header = do actor ← current_user user; Users.me actor
  perform Endpoint.list_users user header = Users.list
  perform (Endpoint.get_user id) user header = Users.get id
  perform (Endpoint.create_user dto) user header = do
    actor ← current_user user
    Users.create env dto actor
  perform (Endpoint.update_user id dto) user header = do
    actor ← current_user user
    Users.update env id dto actor
  perform (Endpoint.delete_user id) user header = do
    actor ← current_user user
    Users.delete env id actor
  perform (Endpoint.list_audit_logs filter) user header = Users.audit_logs filter
  perform Endpoint.list_deleted_projects user header = Projects.list_deleted
  perform Endpoint.list_projects user header = Projects.list
  perform (Endpoint.get_project id) user header = Projects.get id
  perform (Endpoint.create_project dto) user header = do
    actor ← current_user user
    Projects.create env dto actor
  perform (Endpoint.update_project id dto) user header = do
    actor ← current_user user
    Projects.update env id dto actor
  perform (Endpoint.delete_project id) user header = do
    actor ← current_user user
    Projects.delete env (project_cascade env) id actor
  perform (Endpoint.restore_project id) user header = do
    actor ← current_user user
    Projects.restore env (project_cascade env) id actor
  perform (Endpoint.get_workload id) user header = Projects.workload id
  perform (Endpoint.list_deleted_tickets id) user header = Tickets.list_deleted id
  perform (Endpoint.export_tickets id) user header = do
    actor ← current_user user
    Tickets.export env (app env) id actor
  perform (Endpoint.list_tickets id) user header = Tickets.list id
  perform (Endpoint.get_ticket id) user header = Tickets.get id
  perform (Endpoint.import_tickets id records) user header = do
    actor ← current_user user
    Tickets.import env (app env) id records actor
  perform (Endpoint.create_ticket dto) user header = do
    actor ← current_user user
    Tickets.create env (app env) dto actor
  perform (Endpoint.update_ticket id dto) user header = do
    actor ← current_user user
    version ← expected_version header
    Tickets.update env (app env) id dto actor version
  perform (Endpoint.delete_ticket id) user header = do
    actor ← current_user user
    version ← expected_version header
    Tickets.delete env (app env) id actor version
  perform (Endpoint.restore_ticket id) user header = do
    actor ← current_user user
    Tickets.restore env (app env) id actor
  perform (Endpoint.list_comments id) user header = Comments.list id
  perform (Endpoint.create_comment id dto) user header = do
    actor ← current_user user
    Comments.create env id dto actor
  perform (Endpoint.update_comment ticket_id comment_id content) user header = do
    actor ← current_user user
    version ← expected_version header
    Comments.update env ticket_id comment_id content actor version
  perform (Endpoint.delete_comment ticket_id comment_id) user header = do
    actor ← current_user user
    version ← expected_version header
    Comments.delete env ticket_id comment_id actor version
  perform (Endpoint.list_mentions user_id page page_size) user header = do
    actor ← current_user user
    Comments.list_mentions user_id page page_size actor
  perform (Endpoint.list_dependencies id) user header = Hanging.list_dependencies id
  perform (Endpoint.add_dependency id blocked_by) user header = do
    actor ← current_user user
    Hanging.add_dependency env id blocked_by actor
  perform (Endpoint.remove_dependency id blocked_by) user header = do
    actor ← current_user user
    Hanging.remove_dependency env id blocked_by actor
  perform (Endpoint.upload_attachment id file) user header = do
    actor ← current_user user
    Hanging.upload env id file actor
  perform (Endpoint.delete_attachment id attachment_id) user header = do
    actor ← current_user user
    Hanging.delete_attachment env id attachment_id actor

-- The exception filter, or the reply.
unfoldable pub to_response : Result Reply → Response
unfolding catch
to_response (ok r) = record { status = ok_status; etag = r.etag; content = sent r.body }
to_response (err e) =
    let (status, body) = catch (exception e) in
    record { status = status; etag = none; content = failed body }

module _ (env : Env) (issuer : TokenIssuer) (verify : Verifier) where
  unfoldable pub guarded : Request → Exec Reply
  guarded req = do
    user ← jwt_guard env verify req.endpoint req.token
    roles_guard req.endpoint user
    perform env issuer req.endpoint user req.if_match_header

  unfoldable pub serve : Request → Db → Response × Db
  unfolding guarded to_response
  serve req s = let (r, s') = guarded req s in (to_response r, s')
