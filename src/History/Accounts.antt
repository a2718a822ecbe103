-- ===== src/History/Accounts.antt =====
-- A deleted account over time.
use issueflow.Prelude.{
  ℕ, ◌≡◌, ◌≢◌, refl, arith, ◌==◌, ==_iff, false, Bool-cases, inl, inr, none, some, List, [], ◌∷◌,
  find_one, contains, map,
}
use issueflow.Entities.{User, is_null}
use issueflow.Store.{Db, Env, ok, ◌>>=◌}
use issueflow.Users
use issueflow.Users.{is_live_user}
use issueflow.Auth.{CurrentUser, JwtPayload, TokenIssuer, validate}
use issueflow.Api.Endpoints.{is_public}
use issueflow.Api.Pipeline.{Request, Verifier, payload_of, serve}
use issueflow.Api.Access.{Refused, serve-Admitted}
use issueflow.History.Tables.{UniqueKeys, Descends-find_one}
use issueflow.History.Later.{User-Becoming}
use issueflow.History.Runs.{Moment, AllFresh, UniqueTables, run, run-Onward}

abbrev user_key : User → ℕ
user_key u = u.id

absent_row :
    (id : ℕ) (xs : List User)
    → contains (map user_key xs) id ≡ false
    → find_one (is_live_user id) xs ≡ none
unfolding find_one contains
absent_row id [] h = refl
absent_row id (x ∷ xs) h = ground (arith, absent_row id xs)

-- No live row of an id where the row of that id is deleted.
no_live_row :
    (id : ℕ) (xs : List User) {u : User}
    → UniqueKeys user_key xs
    → find_one (λ r. r.id == id) xs ≡ some u
    → is_null u.deleted_at ≡ false
    → find_one (is_live_user id) xs ≡ none
unfolding find_one
no_live_row id [] unique h k = refl
no_live_row id (x ∷ xs) {u} unique h k = elim (Bool-cases (x.id == id)) [
  | inl here ↦
      let e : x ≡ u = ground (arith, here) in
      let own : x.id ≡ id = (==_iff x.id id).0 here in
      let rest = absent_row id xs (rw own at unique.0) in
      let deleted : is_null x.deleted_at ≡ false = rw e k in rw here (rw deleted rest)
  | inr other ↦ rw other (no_live_row id xs unique.1 (rw other at h) k)
]

no_validation :
    (env : Env) (payload : JwtPayload) (user : CurrentUser) (s : Db)
    → find_one (is_live_user payload.sub) s.users ≡ none
    → validate env payload s ≢ (ok user, s)
unfolding validate Users.find_active_by_id ◌>>=◌
no_validation env payload user s h = ground arith

module _ (issuer : TokenIssuer) (verify : Verifier) where
  -- If the generated keys are new, a token of a user who is deleted is refused at every route that is not
  -- public, however much later, and whatever has been served in between.
  pub run-Refused :
      (ms : List Moment)
      → AllFresh ms
      → (s : Db) → UniqueTables s
      → (u : User) (payload : JwtPayload) (env : Env) (req : Request)
      → find_one (λ r. r.id == payload.sub) s.users ≡ some u
      → u.deleted_at ≢ none
      → payload_of verify req.token ≡ some payload
      → is_public req.endpoint ≡ false
      → (let s' = run issuer verify ms s in
          Refused (serve env issuer verify req s').0 s' (serve env issuer verify req s').1)
  run-Refused ms fresh s unique u payload env req found gone verified closed =
      let s' = run issuer verify ms s in
      let (users, moved) = (run-Onward issuer verify ms fresh s).users unique.users in
      let (v, there, becomes) =
        Descends-find_one User-Becoming payload.sub s.users s'.users moved found in
      let still : is_null v.deleted_at ≡ false = ground (arith, becomes.deleted gone) in
      elim (serve-Admitted env issuer verify req s' closed) [
        | inr refused ↦ refused
        | inl (user, admitted, answered) ↦
            let same : admitted.payload ≡ payload = cc (admitted.verified) in
            absurd (
              no_validation env payload user s' (no_live_row payload.sub s'.users users there still)
                (rw same at admitted.validated))
      ]
