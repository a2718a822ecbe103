-- ===== src/Auth/Tokens.antt =====
-- The deny list: what a logout revokes, what a sweep keeps, and what a validated token has passed.
use issueflow.Prelude.{
  ℕ, ◌*◌, ◌≤◌, ◌<◌, ◌≡◌, ◌≢◌, refl, Bool, true, false, not, ◌&&◌, ◌||◌, ltb, none, some, List, [],
  ◌∷◌, ◌++◌, arith, Text, text_eq, text_eq_refl, any, filter, find_one, is_empty,
}
use issueflow.Entities.{InvalidatedToken}
use issueflow.Users
use issueflow.Users.{is_live_user}
use issueflow.Store.{Db, Env, ok, err, unauthorized, ◌>>=◌}
use issueflow.Audit.{record_entry, insert_row}
use issueflow.Auth.{JwtPayload, CurrentUser, add_token, has_token, sweep_expired, logout, validate}

pub any-append :
    {A : Type 0} (p : A → Bool) (xs ys : List A) → any p (xs ++ ys) ≡ (any p xs || any p ys)
unfolding any
any-append p [] ys = refl
any-append p (x ∷ xs) ys = ground (arith, any-append p xs ys)

-- Whether a row stands for a token that is still denied.
abbrev denies : Env → Text → InvalidatedToken → Bool
denies env jti r = text_eq r.jti jti && ltb env.now r.expires_at

kept_by_sweep :
    (env later : Env) (jti : Text) (rows : List InvalidatedToken)
    → env.now ≤ later.now
    → any (denies later jti) (filter (λ r. not (ltb r.expires_at env.now)) rows)
      ≡ any (denies later jti) rows
unfolding any filter
kept_by_sweep env later jti [] h = refl
kept_by_sweep env later jti (r ∷ rows) h = ground (arith, kept_by_sweep env later jti rows h)

-- The hourly sweep revokes no revocation: a token is denied after it exactly when it was before, at
-- the time of the sweep and at any later time.
pub has_token-sweep_expired :
    (env later : Env) (jti : Text) (s : Db)
    → env.now ≤ later.now
    → has_token later jti (sweep_expired env s).1 ≡ has_token later jti s
unfolding has_token sweep_expired
has_token-sweep_expired env later jti s h = kept_by_sweep env later jti s.tokens h

pub has_token-logout :
    (env later : Env) (jti : Text) (user_id expiry : ℕ) (s : Db)
    → later.now < expiry * 1000
    → has_token later jti (logout env jti user_id expiry s).1 ≡ true
unfolding has_token logout add_token record_entry insert_row any ◌>>=◌
has_token-logout env later jti user_id expiry s h = ground (
  arith,
  text_eq_refl jti,
  any-append (denies later jti) (filter (λ r. not (text_eq r.jti jti)) s.tokens)
      (record { jti = jti; expires_at = expiry * 1000 } ∷ []),
)

-- After a logout, a token with that `jti`, which is not empty, and with an expiry of its own is
-- refused as revoked until the expiry that the logout was given, and the refusal changes nothing.
pub validate-logout :
    (env later : Env) (jti : Text) (user_id expiry exp : ℕ) (payload : JwtPayload) (s : Db)
    → is_empty jti ≡ false
    → payload.jti ≡ some jti
    → payload.exp ≡ some exp
    → later.now < expiry * 1000
    → let s' = (logout env jti user_id expiry s).1 in
      validate later payload s' ≡ (err (unauthorized "Token has been revoked"), s')
unfolding validate ◌>>=◌
validate-logout env later jti user_id expiry exp payload s full e x h =
    ground (arith, has_token-logout env later jti user_id expiry s h)

-- A validated token is not on the deny list and belongs to a user that is not deleted; the current
-- user has the `sub`, username, role, `jti` and `exp` of the payload, and a `jti` that is not empty;
-- validation changes nothing.
pub validate_sound :
    (env : Env) (payload : JwtPayload) (s s' : Db) (u : CurrentUser)
    → validate env payload s ≡ (ok u, s')
    → (s' ≡ s)
      × (payload.jti ≡ some u.jti)
      × (payload.exp ≡ some u.exp)
      × (payload.role ≡ some u.role)
      × (has_token env u.jti s ≡ false)
      × (find_one (is_live_user u.id) s.users ≢ none)
      × (u.id ≡ payload.sub)
      × (u.username ≡ payload.username)
      × (is_empty u.jti ≡ false)
unfolding validate Users.find_active_by_id ◌>>=◌
validate_sound env payload s s' u h = ground arith
