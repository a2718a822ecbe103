-- ===== src/History/Revocation.antt =====
-- A revoked token over time.
use issueflow.Prelude.{
  ℕ, ◌*◌, ◌<◌, ◌≤◌, ◌≡◌, ◌≢◌, refl, sym, ◌∙◌, arith, Text, text_eq, text_eq_sound, text_eq_refl,
  ltb, true, false, not, ◌&&◌, Bool-cases, inl, inr, some, List, [], ◌∷◌, any, filter,
}
use issueflow.Entities.{Date, InvalidatedToken}
use issueflow.Store.{Db, Env, ok, ◌>>=◌}
use issueflow.Audit.{record_entry, insert_row}
use issueflow.Auth.{CurrentUser, JwtPayload, TokenIssuer, validate, has_token, add_token, logout}
use issueflow.Auth.Tokens.{has_token-sweep_expired, has_token-logout, validate_sound, any-append}
use issueflow.Api.Endpoints.{is_public}
use issueflow.Api.Pipeline.{Request, Verifier, payload_of, serve}
use issueflow.Api.Access.{Refused, serve-Admitted}
use issueflow.Api.Logout.{is_logout, serve-logout}
use issueflow.History.Later.{FreshIds}
use issueflow.History.Requests.{serve_later}
use issueflow.History.Runs.{
  Event, request, escalation_tick, token_sweep, Moment, AllFresh, handle_later, happen, run,
}

-- No moment of the run is later than `t`.
abbrev pub AllBy : Date → List Moment → Type 0
AllBy t [] = Unit
AllBy t (m ∷ ms) = (m.env.now ≤ t) × AllBy t ms

-- A token that is denied later on is denied now.
denied_before :
    (env later : Env) (jti : Text) (rows : List InvalidatedToken)
    → env.now ≤ later.now
    → any (λ r. text_eq r.jti jti && ltb later.now r.expires_at) rows ≡ true
    → any (λ r. text_eq r.jti jti && ltb env.now r.expires_at) rows ≡ true
unfolding any
denied_before env later jti [] h k = cc
denied_before env later jti (r ∷ rows) h k = ground (arith, denied_before env later jti rows)

one_text : (a b c : Text) → text_eq a b ≡ true → text_eq a c ≡ true → text_eq b c ≡ true
one_text a b c h k = rw (sym (text_eq_sound a b h) ∙ text_eq_sound a c k) (text_eq_refl c)

-- The rows of one token are not those of another.
other_rows :
    (later : Env) (jti other : Text) (rows : List InvalidatedToken)
    → text_eq other jti ≡ false
    → any
        (λ r. text_eq r.jti jti && ltb later.now r.expires_at)
        (filter (λ r. not (text_eq r.jti other)) rows)
      ≡ any (λ r. text_eq r.jti jti && ltb later.now r.expires_at) rows
unfolding any filter
other_rows later jti other [] h = refl
other_rows later jti other (r ∷ rows) h =
    ground (arith, one_text r.jti other jti, other_rows later jti other rows)

has_token-logout_other :
    (env later : Env) (jti other : Text) (user_id expiry : ℕ) (s : Db)
    → text_eq other jti ≡ false
    → has_token later jti s ≡ true
    → has_token later jti (logout env other user_id expiry s).1 ≡ true
unfolding has_token logout add_token record_entry insert_row any ◌>>=◌
has_token-logout_other env later jti other user_id expiry s h k = ground (
  arith,
  other_rows later jti other s.tokens,
  any-append (λ r. text_eq r.jti jti && ltb later.now r.expires_at)
      (filter (λ r. not (text_eq r.jti other)) s.tokens)
      (record { jti = other; expires_at = expiry * 1000 } ∷ []),
)

-- A token that is valid now is not one that is denied later on.
apart :
    (env later : Env) (jti denied : Text) (s : Db)
    → env.now ≤ later.now
    → has_token env jti s ≡ false
    → has_token later denied s ≡ true
    → text_eq jti denied ≡ false
unfolding has_token
apart env later jti denied s h valid k = elim (Bool-cases (text_eq jti denied)) [
  | inr differ ↦ differ
  | inl same ↦
      let now_denied = denied_before env later denied s.tokens h k in
      let e = text_eq_sound jti denied same in ground (arith, rw e at valid)
]

module _ (issuer : TokenIssuer) (verify : Verifier) (later : Env) (jti : Text) where
  happen-denied :
      (env : Env) (e : Event) (s : Db)
      → FreshIds env
      → env.now ≤ later.now
      → has_token later jti s ≡ true
      → has_token later jti (happen issuer verify env e s) ≡ true
  unfolding happen has_token
  happen-denied env token_sweep s fresh h k = has_token-sweep_expired env later jti s h ∙ k
  happen-denied env escalation_tick s fresh h k = rw ((handle_later issuer verify env s).tokens) k
  happen-denied env (request req) s fresh h k = elim (Bool-cases (is_logout req.endpoint)) [
    | inr other ↦ rw ((serve_later env fresh issuer verify req s other).tokens) k
    | inl leaving ↦ elim (serve-logout env issuer verify req s leaving) [
      | inl same ↦ rw same k
      | inr (user, admitted, done) ↦
          let (_, _, _, _, valid, _, _, _, _) =
            validate_sound env admitted.payload s s user admitted.validated in
          rw done (
            has_token-logout_other env later jti user.jti user.id user.exp s
              (apart env later user.jti jti s h valid k) k)
    ]
  ]

  run-denied :
      (ms : List Moment) (s : Db)
      → AllFresh ms
      → AllBy later.now ms
      → has_token later jti s ≡ true
      → has_token later jti (run issuer verify ms s) ≡ true
  unfolding run
  run-denied [] s fresh by k = k
  run-denied (m ∷ ms) s fresh by k =
      run-denied ms (happen issuer verify m.env m.event s) fresh.1 by.1
        (happen-denied m.env m.event s fresh.0 by.0 k)

  denied_validation :
      (payload : JwtPayload) (user : CurrentUser) (s : Db)
      → payload.jti ≡ some jti
      → has_token later jti s ≡ true
      → validate later payload s ≢ (ok user, s)
  denied_validation payload user s e k valid =
      let (_, own, _, _, free, _, _, _, _) = validate_sound later payload s s user valid in
      let same : jti ≡ user.jti = ground arith in ground (arith, rw same at k)

  -- If the generated keys are new, then after a logout, and whatever is served or swept until then, every
  -- request to a route that is not public with a token of the same `jti` is refused and changes
  -- nothing, until the expiry that the logout was given.
  pub run-revoked :
      (ms : List Moment) (at_logout : Env) (user_id expiry : ℕ) (s : Db)
      → AllFresh ms
      → AllBy later.now ms
      → later.now < expiry * 1000
      → (req : Request) (payload : JwtPayload) → payload.jti ≡ some jti
      → payload_of verify req.token ≡ some payload
      → is_public req.endpoint ≡ false
      → (let s' = run issuer verify ms (logout at_logout jti user_id expiry s).1 in
          Refused (serve later issuer verify req s').0 s' (serve later issuer verify req s').1)
  run-revoked ms at_logout user_id expiry s fresh by early req payload own verified closed =
      let t = (logout at_logout jti user_id expiry s).1 in
      let s' = run issuer verify ms t in
      let denied =
        run-denied ms t fresh by (has_token-logout at_logout later jti user_id expiry s early) in
      elim (serve-Admitted later issuer verify req s' closed) [
        | inr refused ↦ refused
        | inl (user, admitted, answered) ↦
            let same : admitted.payload ≡ payload = cc (admitted.verified) in
            absurd (denied_validation payload user s' own denied (rw same at admitted.validated))
      ]
