-- ===== src/Api/Session.antt =====
-- From a login to the requests that carry its token, and to the logout.
use issueflow.Prelude.{
  ℕ, Text, ◌*◌, ◌<◌, ◌≡◌, refl, sym, ap, Bool-cases, inl, inr, ◌∙◌, arith, Bool, true, false, none,
  some, List, [], ◌∷◌, find_one, is_empty, ==_refl, ◌&&◌, text_eq, text_eq_sound,
}
use issueflow.Prelude.Rows.{find_one_sound}
use issueflow.Entities.{User, is_null}
use issueflow.Store.{Db, Env, ok, err, unauthorized, ◌>>=◌}
use issueflow.Users
use issueflow.Users.{is_live_user}
use issueflow.Audit.{record_entry, insert_row}
use issueflow.Auth.{
  CurrentUser, JwtPayload, LoginDto, LoginResult, TokenIssuer, has_token, issue, login, logout,
  validate,
}
use issueflow.Auth.Login.{login-issue}
use issueflow.Auth.Tokens.{validate-logout}
use issueflow.Api.Pipeline.{Verifier, authenticate}

-- The JWT library reads what it has signed, with the expiry that it has added.
abbrev pub ReadsBack : TokenIssuer → Verifier → ℕ → Type 0
ReadsBack issuer verify exp =
    (p : JwtPayload)
    → verify (issuer.sign_async p issuer.expires_in) ≡ some (record p { exp = some exp })

abbrev pub session_user : TokenIssuer → ℕ → User → CurrentUser
session_user issuer exp u = record {
  id = u.id;
  username = u.username;
  role = u.role;
  jti = issuer.uuid;
  exp = exp;
}

pub find_one-some :
    {A : Type 0} (p q : A → Bool) (xs : List A) {x : A}
    → find_one p xs ≡ some x
    → q x ≡ true
    → (y : A) × (find_one q xs ≡ some y)
unfolding find_one
find_one-some p q [] h k = absurd (cc)
find_one-some p q (z ∷ zs) {x} h k = elim (Bool-cases (q z)) [
  | inl here ↦ (z, rw here refl)
  | inr other ↦
      let passed : p z ≡ false = ground arith in
      let (y, later) = find_one-some p q zs (rw passed at h) k in (y, rw other later)
]

login-users :
    (env : Env) (issuer : TokenIssuer) (dto : LoginDto) (s : Db)
    → ((login env issuer dto s).1.users ≡ s.users) × ((login env issuer dto s).1.tokens ≡ s.tokens)
unfolding login Users.find_by_username_with_password record_entry insert_row ◌>>=◌
login-users env issuer dto s = ground arith

abbrev signed_payload : TokenIssuer → User → JwtPayload
signed_payload issuer u = record {
  sub = u.id;
  username = u.username;
  role = some u.role;
  jti = some issuer.uuid;
  exp = none;
}

abbrev named : Text → User → Bool
named name u = text_eq u.username name && is_null u.deleted_at

module _ (issuer : TokenIssuer) (verify : Verifier) (exp : ℕ) (back : ReadsBack issuer verify exp)
    (env : Env) (dto : LoginDto) (s s' : Db) (res : LoginResult)
    (h : login env issuer dto s ≡ (ok res, s')) where
  -- The user who has logged in, and what the library makes of its token.
  login-verified :
      (u : User) × (find_one (named dto.username) s.users ≡ some u)
      × (u.deleted_at ≡ none)
      × (verify res.access_token ≡ some (record (signed_payload issuer u) { exp = some exp }))
  unfolding issue Users.find_by_username_with_password
  login-verified =
      let (u, found, name, live, accepted, issued) = login-issue env issuer dto s s' res h in
      (u, cc, live, ap (λ r. verify r.access_token) issued ∙ back (signed_payload issuer u))

  -- The token of a login admits its user, if its id is not empty and not on the deny list.
  authenticate-login :
      (later : Env) (u : User)
      → is_empty issuer.uuid ≡ false
      → has_token later issuer.uuid s' ≡ false
      → find_one (named dto.username) s.users ≡ some u
      → u.deleted_at ≡ none
      → verify res.access_token ≡ some (record (signed_payload issuer u) { exp = some exp })
      → authenticate later verify (some res.access_token) s'
        ≡ (ok (some (session_user issuer exp u)), s')
  unfolding authenticate validate Users.find_active_by_id ◌>>=◌
  authenticate-login later u full fresh found live read =
      let (users, tokens) = login-users env issuer dto s in
      let same : s'.users ≡ s.users = ap (λ r. r.1.users) (sym h) ∙ users in
      let (w, active) =
        find_one-some (named dto.username) (is_live_user u.id) s.users found
          (ground (arith, ==_refl u.id)) in
      let there : find_one (is_live_user u.id) s'.users ≡ some w = rw same active in
      ground (arith, read, full, fresh, there)

-- A session from end to end: the token of a login admits its user, and once that user has logged out
-- with it, it is refused as revoked until its expiry, whenever these calls are made. The JWT library reads
-- back what it has signed, and the id of the token is not empty and not on the deny list at first.
pub session_ends :
    (env at_use at_logout later : Env) (issuer : TokenIssuer) (verify : Verifier) (exp : ℕ)
    (dto : LoginDto) (s s' : Db) (res : LoginResult)
    → ReadsBack issuer verify exp
    → is_empty issuer.uuid ≡ false
    → has_token at_use issuer.uuid s' ≡ false
    → later.now < exp * 1000
    → login env issuer dto s ≡ (ok res, s')
    → (user : CurrentUser) × (user.username ≡ dto.username)
      × (authenticate at_use verify (some res.access_token) s' ≡ (ok (some user), s'))
      × (let s'' = (logout at_logout user.jti user.id user.exp s').1 in
          authenticate later verify (some res.access_token) s''
          ≡ (err (unauthorized "Token has been revoked"), s''))
unfolding authenticate ◌>>=◌
session_ends env at_use at_logout later issuer verify exp dto s s' res back full fresh early h =
    let (u, found, live, read) = login-verified issuer verify exp back env dto s s' res h in
    let s'' = (logout at_logout issuer.uuid u.id exp s').1 in
    let revoked =
      validate-logout at_logout later issuer.uuid u.id exp exp
        (record (signed_payload issuer u) { exp = some exp }) s' full refl refl early in
    (
      session_user issuer exp u,
      text_eq_sound u.username dto.username
          (ground (arith, find_one_sound (named dto.username) s.users found)),
      authenticate-login issuer verify exp back env dto s s' res h at_use u full fresh found live
          read,
      ground (arith, read, revoked),
    )
