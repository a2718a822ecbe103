-- ===== src/Auth.antt =====
-- auth/auth.service.ts, auth/invalidated-tokens.service.ts and auth/strategies/jwt.strategy.ts.
pub mod Tokens
pub mod Login
use issueflow.Prelude.{
  ℕ, ◌*◌, ltb, Text, text_eq, ◌&&◌, not, Bool, Option, none, some, [], ◌∷◌, ◌++◌, filter, any,
  is_empty, if◌then◌else◌,
}
use issueflow.Enums.{UserRole, user_entity, delete_action, login_action, login_failed, by_user}
use issueflow.Entities.{Date, User, attempted_unknown, attempted_bad_password, logout_event}
use issueflow.Store.{
  Db, Env, Exec, unauthorized, pure, raise, gets, modify, raise_if, or_raise, ◌>>=◌, ◌>>◌,
}
use issueflow.Audit.{system_actor, input, record_entry}
use issueflow.Users

-- InvalidatedTokensService. `upsert` on the primary key `jti`.
unfoldable pub add_token : Text → Date → Exec Unit
add_token jti expires_at = modify λ s. record s {
  tokens =
      filter (λ r. not (text_eq r.jti jti)) s.tokens
      ++ record { jti = jti; expires_at = expires_at } ∷ [];
}

module _ (env : Env) where
  unfoldable pub has_token : Text → Db → Bool
  has_token jti s = any (λ r. text_eq r.jti jti && ltb env.now r.expires_at) s.tokens

  unfoldable pub sweep_expired : Exec Unit
  sweep_expired =
      modify λ s. record s { tokens = filter (λ r. not (ltb r.expires_at env.now)) s.tokens }

pub record LoginDto : Type 0 where
  pub username : Text
  pub password : Text

-- The payload that is signed. A payload that comes back may lack `jti` or `exp`, and its role is
-- any text: `role` is none where it is no member of `UserRole`.
pub record JwtPayload : Type 0 where
  pub sub : ℕ
  pub username : Text
  pub role : Option UserRole
  pub jti : Option Text
  pub exp : Option ℕ

-- uuid, the configuration and the JWT library.
pub record TokenIssuer : Type 0 where
  pub uuid : Text
  pub expires_in : ℕ
  pub sign_async : JwtPayload → ℕ → Text

pub record LoginResult : Type 0 where
  pub access_token : Text
  pub expires_in : ℕ
  pub user_id : ℕ

module _ (env : Env) (issuer : TokenIssuer) where
  unfoldable pub issue : User → LoginResult
  issue u = record {
    access_token =
        issuer.sign_async
          (record {
            sub = u.id;
            username = u.username;
            role = some u.role;
            jti = some issuer.uuid;
            exp = none;
          })
          issuer.expires_in;
    expires_in = issuer.expires_in;
    user_id = u.id;
  }

  abbrev pub reject_unknown : LoginDto → Exec LoginResult
  reject_unknown dto = do
    record_entry env
        (input login_failed user_entity 0 system_actor (some (attempted_unknown dto.username)))
    raise (unauthorized "Invalid credentials")

  abbrev pub reject_password : LoginDto → User → Exec LoginResult
  reject_password dto u = do
    record_entry env (
        input login_failed user_entity u.id system_actor
          (some (attempted_bad_password dto.username)))
    raise (unauthorized "Invalid credentials")

  abbrev pub accept : User → Exec LoginResult
  accept u = do
    record_entry env (
        input login_action user_entity u.id (record { performed_by = some u.id; actor = by_user })
          none)
    pure (issue u)

  unfoldable pub login : LoginDto → Exec LoginResult
  login dto = do
    found ← Users.find_by_username_with_password dto.username
    elim found [
      | none ↦ reject_unknown dto
      | some u ↦
          if env.compare dto.password u.password_hash then accept u else reject_password dto u
    ]

module _ (env : Env) where
  unfoldable pub logout : Text → ℕ → ℕ → Exec Unit
  unfolding add_token
  logout jti user_id expiry_seconds = do
    add_token jti (expiry_seconds * 1000)
    record_entry env (
        input delete_action user_entity user_id
          (record { performed_by = some user_id; actor = by_user }) (some logout_event))

pub record CurrentUser : Type 0 where
  pub id : ℕ
  pub username : Text
  pub role : UserRole
  pub jti : Text
  pub exp : ℕ

-- `!payload?.jti`: an empty text is falsy too.
abbrev truthy : Option Text → Option Text
truthy none = none
truthy (some t) = if is_empty t then none else some t

module _ (env : Env) where
  unfoldable pub validate : JwtPayload → Exec CurrentUser
  validate payload = do
    jti ← or_raise (truthy payload.jti) (unauthorized "Token missing jti")
    exp ← or_raise payload.exp (unauthorized "Token missing exp")
    revoked ← gets (has_token env jti)
    raise_if revoked (unauthorized "Token has been revoked")
    role ← or_raise payload.role (unauthorized "Token has an unknown role")
    active ← Users.find_active_by_id payload.sub
    or_raise active (unauthorized "User no longer active")
    pure (record {
      id = payload.sub;
      username = payload.username;
      role = role;
      jti = jti;
      exp = exp;
    })
