-- ===== src/Api/Logout.antt =====
-- The request that revokes a token.
use issueflow.Prelude.{
  ◌≡◌, refl, Text, Option, some, ◌⊎◌, inl, inr, arith, ap, ◌∙◌, Bool, true, false, Bool-cases,
  is_empty,
}
use issueflow.Store.{Db, Env, ◌>>=◌}
use issueflow.Auth
use issueflow.Auth.{CurrentUser, TokenIssuer, validate}
use issueflow.Api.Endpoints.{Endpoint, is_public}
use issueflow.Api.Pipeline.{Request, Verifier, current_user, perform, serve}
use issueflow.Api.Controllers.Users
use issueflow.Api.Access.{Admitted, serve-Admitted}

abbrev pub is_logout : Endpoint → Bool
is_logout Endpoint.post_logout = true
is_logout _ = false

is_logout_sound : (e : Endpoint) → is_logout e ≡ true → e ≡ Endpoint.post_logout
is_logout_sound e h = ground arith

performed :
    (env : Env) (issuer : TokenIssuer) (header : Option Text) (user : CurrentUser) (s : Db)
    → (perform env issuer Endpoint.post_logout (some user) header s).1 ≡ (Users.logout env user s).1
unfolding perform current_user ◌>>=◌
performed env issuer header user s = refl

-- The database after the handler.
handled :
    (env : Env) (user : CurrentUser) (s : Db)
    → ((Users.logout env user s).1 ≡ s)
      ⊎ ((Users.logout env user s).1 ≡ (Auth.logout env user.jti user.id user.exp s).1)
unfolding Users.logout ◌>>=◌
handled env user s = elim (Bool-cases (is_empty user.jti)) [
  | inl empty ↦ inl (ground arith)
  | inr full ↦ inr (ground arith)
]

-- A logout changes nothing, or it is the logout of a user whose token has been validated.
pub serve-logout :
    (env : Env) (issuer : TokenIssuer) (verify : Verifier) (req : Request) (s : Db)
    → is_logout req.endpoint ≡ true
    → ((serve env issuer verify req s).1 ≡ s)
      ⊎ ((user : CurrentUser) × Admitted env verify req s user
          × ((serve env issuer verify req s).1 ≡ (Auth.logout env user.jti user.id user.exp s).1))
unfolding is_public
serve-logout env issuer verify req s h =
    let same = is_logout_sound req.endpoint h in
    let closed : is_public req.endpoint ≡ false = rw same refl in
    elim (serve-Admitted env issuer verify req s closed) [
      | inr refused ↦ inl refused.unchanged
      | inl (user, admitted, answered) ↦
          let here : (serve env issuer verify req s).1 ≡ (Users.logout env user s).1 =
            ap (λ r. r.1) answered
            ∙ ap (λ e. (perform env issuer e (some user) req.if_match_header s).1) same
            ∙ performed env issuer req.if_match_header user s in
          elim (handled env user s) [
            | inl empty ↦ inl (here ∙ empty)
            | inr done ↦ inr (user, admitted, here ∙ done)
          ]
    ]
