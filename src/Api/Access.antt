-- ===== src/Api/Access.antt =====
-- Who gets past the guards, and what a refused request leaves behind.
use issueflow.Prelude.{
  ◌≡◌, ◌≢◌, ◌⊎◌, inl, inr, refl, arith, Bool, true, false, Option, none, some, List, any,
}
use issueflow.Store.{Db, Env, Result, Error, ok, err, forbidden, ◌>>=◌}
use issueflow.Users
use issueflow.Enums.{UserRole}
use issueflow.Auth.{CurrentUser, JwtPayload, TokenIssuer, validate}
use issueflow.Http.{can_activate}
use issueflow.Api.Errors.{unauthorized_status, forbidden_status, get_status, exception, catch}
use issueflow.Api.Endpoints.{is_public, required_roles}
use issueflow.Api.Pipeline.{
  Request, Response, Verifier, payload_of, roles_guard, authenticate, jwt_guard, perform, guarded,
  serve, to_response,
}

pub validate-reads : (env : Env) (payload : JwtPayload) (s : Db) → (validate env payload s).1 ≡ s
unfolding validate Users.find_active_by_id ◌>>=◌
validate-reads env payload s = ground arith

-- The user that the guards have let through.
pub record Admitted (env : Env) (verify : Verifier) (req : Request) (s : Db) (user : CurrentUser)
    : Type 0 where
  pub payload : JwtPayload
  pub verified : payload_of verify req.token ≡ some payload
  pub validated : validate env payload s ≡ (ok user, s)
  pub permitted : can_activate (required_roles req.endpoint) (some user.role) ≡ ok true

-- A request that the guards have refused.
pub record Refused (response : Response) (s s' : Db) : Type 0 where
  pub status : (response.status ≡ unauthorized_status) ⊎ (response.status ≡ forbidden_status)
  pub no_etag : response.etag ≡ none
  pub unchanged : s' ≡ s

validate-error :
    (env : Env) (payload : JwtPayload) (s s' : Db) (e : Error)
    → validate env payload s ≡ (err e, s')
    → get_status e ≡ unauthorized_status
unfolding validate Users.find_active_by_id get_status ◌>>=◌
validate-error env payload s s' e h = ground arith

can_activate-error :
    (required : Option (List UserRole)) (role : Option UserRole) (e : Error)
    → can_activate required role ≡ err e
    → e ≡ forbidden "Insufficient role"
unfolding can_activate any
can_activate-error required role e h = ground arith

can_activate-not_false :
    (required : Option (List UserRole)) (role : Option UserRole)
    → can_activate required role ≢ ok false
unfolding can_activate any
can_activate-not_false required role = ground arith

catch-get_status :
    (e : Error) → get_status e ≡ unauthorized_status → (catch (exception e)).0 ≡ unauthorized_status
unfolding catch
catch-get_status e h = ground arith

module _ (env : Env) (issuer : TokenIssuer) (verify : Verifier) (req : Request) (s : Db) where
  abbrev outcome : Response × Db
  outcome = serve env issuer verify req s

  abbrev Answered : CurrentUser → Type 0
  Answered user = outcome ≡ (
      let (r, s') = perform env issuer req.endpoint (some user) req.if_match_header s in
      (to_response r, s'))

  -- Behind the token, by the role.
  past_role :
      (payload : JwtPayload) (user : CurrentUser)
      → is_public req.endpoint ≡ false
      → payload_of verify req.token ≡ some payload
      → validate env payload s ≡ (ok user, s)
      → (b : Result Bool) → can_activate (required_roles req.endpoint) (some user.role) ≡ b
      → ((u : CurrentUser) × Admitted env verify req s u × Answered u)
        ⊎ Refused outcome.0 s outcome.1
  unfolding serve guarded jwt_guard authenticate roles_guard to_response catch get_status ◌>>=◌
  past_role payload user closed verified validated (ok true) e = inl (
    user,
    record { payload = payload; verified = verified; validated = validated; permitted = e },
    ground (arith, closed, verified, validated, e),
  )
  past_role payload user closed verified validated (ok false) e =
      absurd (can_activate-not_false (required_roles req.endpoint) (some user.role) e)
  past_role payload user closed verified validated (err x) e =
      let reason = can_activate-error (required_roles req.endpoint) (some user.role) x e in
      inr (record {
        status = inr (ground (arith, reason));
        no_etag = ground (arith, reason);
        unchanged = ground arith;
      })

  -- Behind the signature: the validated user, or the refusal.
  past_token :
      (payload : JwtPayload)
      → is_public req.endpoint ≡ false
      → payload_of verify req.token ≡ some payload
      → (r : Result CurrentUser × Db) → validate env payload s ≡ r
      → ((user : CurrentUser) × Admitted env verify req s user × Answered user)
        ⊎ Refused outcome.0 s outcome.1
  unfolding serve guarded jwt_guard authenticate to_response ◌>>=◌
  past_token payload closed verified (err e, s1) h =
      let same : s1 ≡ s = cc (validate-reads env payload s) in
      let refused = catch-get_status e (validate-error env payload s s1 e h) in
      inr (record {
        status = inl (ground (arith, refused));
        no_etag = ground arith;
        unchanged = ground (arith, same);
      })
  past_token payload closed verified (ok user, s1) h =
      let same : s1 ≡ s = cc (validate-reads env payload s) in
      past_role payload user closed verified (rw same at h)
        (can_activate (required_roles req.endpoint) (some user.role)) refl

  -- A route that is not public is reached only by a user with a verified and validated token and a role
  -- that the route admits, and then the response is that of the handler; any other request is refused
  -- as unauthorized or forbidden, without an ETag, and changes nothing.
  pub serve-Admitted :
      is_public req.endpoint ≡ false
      → ((user : CurrentUser) × Admitted env verify req s user × Answered user)
        ⊎ Refused outcome.0 s outcome.1
  serve-Admitted closed = go (payload_of verify req.token) refl
    where
      go :
          (o : Option JwtPayload)
          → payload_of verify req.token ≡ o
          → ((user : CurrentUser) × Admitted env verify req s user × Answered user)
            ⊎ Refused outcome.0 s outcome.1
      go none e =
          unfold serve guarded jwt_guard authenticate to_response catch get_status ◌>>=◌ in
          inr (record {
            status = inl (ground arith);
            no_etag = ground arith;
            unchanged = ground arith;
          })
      go (some payload) e = past_token payload closed e (validate env payload s) refl
