-- ===== src/History/Requests.antt =====
-- A request, whichever route it takes and however it ends, leaves a later database.
use issueflow.Prelude.{ℕ, Text, arith, ◌≡◌, false, Bool-cases, inl, inr, sym, Option, none, some}
use issueflow.Entities.{Ticket}
use issueflow.Store.{Db, Env, Exec, pure, ◌>>=◌, ◌>>◌}
use issueflow.Auth.{CurrentUser, JwtPayload, TokenIssuer, validate}
use issueflow.Audit
use issueflow.Users as UserService
use issueflow.Projects as ProjectService
use issueflow.AutoAssign
use issueflow.Tickets.Base
use issueflow.Comments.Feed
use issueflow.App.{app}
use issueflow.App.Frames.{app-IsReading}
use issueflow.Dependencies.Blocking.{app-IsQuiet}
use issueflow.Api.Responses.{Reply}
use issueflow.Api.Endpoints.{Endpoint}
use issueflow.Api.Pipeline.{
  Request, Verifier, current_user, expected_version, roles_guard, authenticate, jwt_guard, perform,
  guarded, serve,
}
use issueflow.Api.Controllers.Tickets
use issueflow.Api.Controllers.Projects
use issueflow.Api.Controllers.Users
use issueflow.Api.Controllers.Comments
use issueflow.Api.Controllers.Hanging
use issueflow.Api.Logout.{is_logout, serve-logout}
use mathlib.Core.Path.{subst}
use issueflow.History.Later.{Later, Later_refl, Onward, Onward-Later, FreshIds}
use issueflow.History.Respects.{
  Respects, Respects-pure, Respects-raise, Respects-gets, Respects-or_raise, Respects-raise_if,
  Respects-if, Respects-bind, Respects-then, Respects-reads,
}
use issueflow.History.Services.Reading.{
  user_active-Respects, user_live-Respects, project_active-Respects, project_live-Respects,
  ticket_active-Respects, ticket_live-Respects,
}
use issueflow.History.Services.Attachments.{upload-Respects, delete_attachment-Respects}
use issueflow.History.Services.Dependencies.{add-Respects, remove-Respects, list_blockers-Respects}
use issueflow.History.Services.Accounts.{
  create_user-Respects, update_user-Respects, delete_user-Respects, login-Respects, logout-Onward,
}
use issueflow.History.Services.Comments.{
  create_comment-Respects, update_comment-Respects, delete_comment-Respects,
}
use issueflow.History.Services.Tickets.{
  update-Respects, create-Respects, import-Respects, export-Respects,
}
use issueflow.History.Services.Removal.{delete_ticket-Respects, restore_ticket-Respects}
use issueflow.History.Services.Projects.{
  create_project-Respects, update_project-Respects, delete_project-Respects,
  restore_project-Respects,
}

-- A handler that answers with what its service has returned.
answered : {A : Type 0} (m : Exec A) (f : A → Reply) → Respects m → Respects (m >>= λ a. pure (f a))
answered m f r = Respects-bind m _ r (λ a. Respects-pure (f a))

replied : {A : Type 0} (m : Exec A) (x : Reply) → Respects m → Respects (m >> pure x)
replied m x r = Respects-bind m _ r (λ a. Respects-pure x)

-- A handler behind `@CurrentUser()`.
known :
    (user : Option CurrentUser) (f : CurrentUser → Exec Reply)
    → ((u : CurrentUser) → Respects (f u))
    → Respects (current_user user >>= f)
unfolding current_user
known user f h = Respects-bind _ f (Respects-or_raise user _) h

-- A handler behind `@CurrentUser()` and `@IfMatch()`.
versioned :
    (user : Option CurrentUser) (header : Option Text) (f : CurrentUser → ℕ → Exec Reply)
    → ((u : CurrentUser) (n : ℕ) → Respects (f u n))
    → Respects (current_user user >>= λ u. expected_version header >>= f u)
unfolding expected_version
versioned user header f h =
    known user _ λ u.
      Respects-bind (expected_version header) (f u) (Respects-reads _ (λ s. ground arith)) (h u)

listed_deleted-Respects : (id : ℕ) → Respects (Base.find_all_deleted_for_project id)
unfolding Base.find_all_deleted_for_project
listed_deleted-Respects id =
    Respects-bind _ _ (Respects-gets _)
      λ there. Respects-then _ _ (Respects-raise_if _ _) (Respects-gets _)

listed-Respects : (id : ℕ) → Respects (Base.find_all_for_project id)
unfolding Base.find_all_for_project
listed-Respects id = Respects-then _ _ (project_active-Respects id) (Respects-gets _)

workload-Respects : (id : ℕ) → Respects (AutoAssign.get_project_workload id)
unfolding AutoAssign.get_project_workload
workload-Respects id = Respects-then _ _ (project_active-Respects id) (Respects-gets _)

user_response-Respects : (id : ℕ) → Respects (UserService.find_one_response id)
unfolding UserService.find_one_response
user_response-Respects id = Respects-bind _ _ (user_live-Respects id) (λ u. Respects-pure _)

comments-Respects : (id : ℕ) → Respects (Feed.find_for_ticket id)
unfolding Feed.find_for_ticket
comments-Respects id = Respects-then _ _ (ticket_active-Respects id) (Respects-gets _)

feed-Respects :
    (user_id page page_size : ℕ) → Respects (Feed.get_mentions_for_user user_id page page_size)
unfolding Feed.get_mentions_for_user
feed-Respects user_id page page_size = Respects-gets _

mentions-Respects :
    (user_id page page_size : ℕ) (u : CurrentUser)
    → Respects (Comments.list_mentions user_id page page_size u)
unfolding Comments.list_mentions
mentions-Respects user_id page page_size u = Respects-then _ _ (Respects-raise_if _ _) (
    Respects-then _ _ (user_active-Respects user_id)
      (answered _ _ (feed-Respects user_id page page_size)))

restored-Respects : (o : Option Ticket) → Respects (Tickets.restored_reply o)
restored-Respects none = Respects-raise _
restored-Respects (some t) = Respects-pure _

module _ (env : Env) (fresh : FreshIds env) (issuer : TokenIssuer) where
  perform-Respects :
      (e : Endpoint) (user : Option CurrentUser) (header : Option Text)
      → is_logout e ≡ false
      → Respects (perform env issuer e user header)
  unfolding perform current_user expected_version UserService.find_all ProjectService.find_all
      ProjectService.find_all_deleted Audit.find Users.health Users.login Users.logout Users.me
      Users.list Users.get Users.create Users.update Users.delete Users.audit_logs
      Projects.list_deleted Projects.list Projects.get Projects.create Projects.update
      Projects.delete Projects.restore Projects.workload Tickets.list_deleted Tickets.export
      Tickets.list Tickets.get Tickets.import Tickets.create Tickets.update Tickets.delete
      Tickets.restore Comments.list Comments.create Comments.update Comments.delete
      Hanging.list_dependencies Hanging.add_dependency Hanging.remove_dependency Hanging.upload
      Hanging.delete_attachment
  perform-Respects Endpoint.get_health user header k = Respects-pure _
  perform-Respects (Endpoint.post_login dto) user header k =
      answered _ _ (login-Respects env issuer dto)
  perform-Respects Endpoint.post_logout user header k = cc
  perform-Respects Endpoint.get_me user header k =
      known user _ (λ u. answered _ _ (user_response-Respects u.id))
  perform-Respects Endpoint.list_users user header k = answered _ _ (Respects-gets _)
  perform-Respects (Endpoint.get_user id) user header k = answered _ _ (user_response-Respects id)
  perform-Respects (Endpoint.create_user dto) user header k =
      known user _ (λ u. answered _ _ (create_user-Respects env fresh dto _))
  perform-Respects (Endpoint.update_user id dto) user header k =
      known user _ (λ u. replied _ _ (update_user-Respects env id dto _))
  perform-Respects (Endpoint.delete_user id) user header k =
      known user _ (λ u. replied _ _ (delete_user-Respects env id (some u.id)))
  perform-Respects (Endpoint.list_audit_logs q) user header k = answered _ _ (Respects-gets _)
  perform-Respects Endpoint.list_deleted_projects user header k = answered _ _ (Respects-gets _)
  perform-Respects Endpoint.list_projects user header k = answered _ _ (Respects-gets _)
  perform-Respects (Endpoint.get_project id) user header k = answered _ _ (project_live-Respects id)
  perform-Respects (Endpoint.create_project dto) user header k =
      known user _ (λ u. answered _ _ (create_project-Respects env fresh dto (some u.id)))
  perform-Respects (Endpoint.update_project id dto) user header k =
      known user _ (λ u. replied _ _ (update_project-Respects env id dto (some u.id)))
  perform-Respects (Endpoint.delete_project id) user header k =
      known user _ (λ u. replied _ _ (delete_project-Respects env id (some u.id)))
  perform-Respects (Endpoint.restore_project id) user header k =
      known user _ (λ u. replied _ _ (restore_project-Respects env id (some u.id)))
  perform-Respects (Endpoint.get_workload id) user header k = answered _ _ (workload-Respects id)
  perform-Respects (Endpoint.list_deleted_tickets id) user header k =
      answered _ _ (listed_deleted-Respects id)
  perform-Respects (Endpoint.export_tickets id) user header k =
      known user _ (λ u. answered _ _ (export-Respects env (app env) id (some u.id)))
  perform-Respects (Endpoint.list_tickets id) user header k = answered _ _ (listed-Respects id)
  perform-Respects (Endpoint.get_ticket id) user header k = answered _ _ (ticket_live-Respects id)
  perform-Respects (Endpoint.import_tickets id rows) user header k = known user _ (λ u.
      answered _ _ (import-Respects env (app env) fresh (app-IsReading env) id rows (some u.id)))
  perform-Respects (Endpoint.create_ticket dto) user header k =
      known user _ (λ u.
        answered _ _ (create-Respects env (app env) fresh (app-IsReading env) dto (some u.id)))
  perform-Respects (Endpoint.update_ticket id dto) user header k =
      versioned user header _
        (λ u n. answered _ _ (update-Respects env (app env) (app-IsQuiet env) id dto (some u.id) n))
  perform-Respects (Endpoint.delete_ticket id) user header k =
      versioned user header _ (λ u n. replied _ _ (delete_ticket-Respects env id (some u.id) n))
  perform-Respects (Endpoint.restore_ticket id) user header k =
      known user _
        (λ u. Respects-bind _ _ (restore_ticket-Respects env id (some u.id)) restored-Respects)
  perform-Respects (Endpoint.list_comments id) user header k = answered _ _ (comments-Respects id)
  perform-Respects (Endpoint.create_comment id dto) user header k =
      known user _ (λ u. answered _ _ (create_comment-Respects env fresh id dto (some u.id)))
  perform-Respects (Endpoint.update_comment id comment_id content) user header k =
      versioned user header _
        (λ u n. answered _ _ (update_comment-Respects env id comment_id content _ n))
  perform-Respects (Endpoint.delete_comment id comment_id) user header k =
      versioned user header _ (λ u n. replied _ _ (delete_comment-Respects env id comment_id _ n))
  perform-Respects (Endpoint.list_mentions user_id page page_size) user header k =
      known user _ (mentions-Respects user_id page page_size)
  perform-Respects (Endpoint.list_dependencies id) user header k =
      answered _ _ (list_blockers-Respects env id)
  perform-Respects (Endpoint.add_dependency id other) user header k =
      known user _ (λ u. replied _ _ (add-Respects env id other (some u.id)))
  perform-Respects (Endpoint.remove_dependency id other) user header k =
      known user _ (λ u. replied _ _ (remove-Respects env id other (some u.id)))
  perform-Respects (Endpoint.upload_attachment id file) user header k =
      known user _ (λ u. answered _ _ (upload-Respects env fresh _))
  perform-Respects (Endpoint.delete_attachment id other) user header k =
      known user _ (λ u. replied _ _ (delete_attachment-Respects env id other (some u.id)))

  module _ (verify : Verifier) where
    validated : (payload : JwtPayload) → Respects (validate env payload)
    unfolding validate UserService.find_active_by_id ◌>>=◌
    validated payload = Respects-reads _ (λ s. ground arith)

    guard-Respects : (e : Endpoint) (token : Option Text) → Respects (jwt_guard env verify e token)
    unfolding jwt_guard authenticate
    guard-Respects e token = Respects-if _ _ _ (Respects-pure none) (
        Respects-bind _ _ (Respects-or_raise _ _)
          λ payload. Respects-bind _ _ (validated payload) (λ user. Respects-pure _))

    roles-Respects : (e : Endpoint) (user : Option CurrentUser) → Respects (roles_guard e user)
    unfolding roles_guard
    roles-Respects e user = Respects-reads _ (λ s. ground arith)

    guarded-Respects :
        (req : Request) → is_logout req.endpoint ≡ false → Respects (guarded env issuer verify req)
    unfolding guarded
    guarded-Respects req k = Respects-bind _ _ (guard-Respects req.endpoint req.token) λ user.
        Respects-then _ _ (roles-Respects req.endpoint user)
          (perform-Respects req.endpoint user req.if_match_header k)

    -- Any request but a logout leaves the deny list alone.
    pub serve_later :
        (req : Request) (s : Db)
        → is_logout req.endpoint ≡ false
        → Later s (serve env issuer verify req s).1
    unfolding serve
    serve_later req s k = (guarded-Respects req k).at s

    pub serve-Onward : (req : Request) (s : Db) → Onward s (serve env issuer verify req s).1
    serve-Onward req s = elim (Bool-cases (is_logout req.endpoint)) [
      | inr other ↦ Onward-Later s _ (serve_later req s other)
      | inl leaving ↦ elim (serve-logout env issuer verify req s leaving) [
        | inl same ↦ subst (Onward s) (sym same) (Onward-Later s s (Later_refl s))
        | inr (user, valid, done) ↦
            subst (Onward s) (sym done) (logout-Onward env user.jti user.id user.exp s)
      ]
    ]
