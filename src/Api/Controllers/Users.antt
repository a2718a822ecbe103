-- ===== src/Api/Controllers/Users.antt =====
-- users/users.controller.ts, auth/auth.controller.ts, audit-log/audit-logs.controller.ts and
-- health.controller.ts.
use issueflow.Prelude.{ℕ, some, is_empty}
use issueflow.Store.{Env, Exec, unauthorized, pure, raise_if, ◌>>=◌, ◌>>◌}
use issueflow.Audit
use issueflow.Audit.{AuditLogQuery}
use issueflow.Auth
use issueflow.Auth.{CurrentUser, LoginDto, TokenIssuer}
use issueflow.Users as Service
use issueflow.Users.{Actor, CreateUserDto, UpdateUserDto}
use issueflow.Api.Responses.{
  Reply, reply, no_body, health_body, login_body, user_body, users_body, audit_logs_body,
}

-- The caller as the services take it.
abbrev pub actor_from : CurrentUser → Actor
actor_from user = record { id = user.id; role = user.role }

unfoldable pub list : Exec Reply
list = do rows ← Service.find_all; pure (reply (users_body rows))

unfoldable pub get : ℕ → Exec Reply
get user_id = do user ← Service.find_one_response user_id; pure (reply (user_body user))

unfoldable pub me : CurrentUser → Exec Reply
me user = do found ← Service.find_one_response user.id; pure (reply (user_body found))

unfoldable pub audit_logs : AuditLogQuery → Exec Reply
audit_logs filter = do rows ← Audit.find filter; pure (reply (audit_logs_body rows))

unfoldable pub health : Exec Reply
health = pure (reply health_body)

module _ (env : Env) where
  unfoldable pub create : CreateUserDto → CurrentUser → Exec Reply
  create dto actor = do
    user ← Service.create env dto (some (actor_from actor))
    pure (reply (user_body user))

  unfoldable pub update : ℕ → UpdateUserDto → CurrentUser → Exec Reply
  update user_id dto actor = do
    Service.update env user_id dto (some (actor_from actor))
    pure (reply no_body)

  unfoldable pub delete : ℕ → CurrentUser → Exec Reply
  delete user_id actor = do Service.soft_delete env user_id (some actor.id); pure (reply no_body)

  unfoldable pub login : TokenIssuer → LoginDto → Exec Reply
  login issuer dto = do result ← Auth.login env issuer dto; pure (reply (login_body result))

  unfoldable pub logout : CurrentUser → Exec Reply
  logout user = do
    raise_if (is_empty user.jti) (unauthorized "Unauthorized")
    Auth.logout env user.jti user.id user.exp
    pure (reply no_body)
