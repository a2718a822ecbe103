-- ===== src/Auth/Login.antt =====
-- What a login asks of the user.
use issueflow.Prelude.{
  ◌≡◌, refl, arith, true, Bool, Option, none, some, find_one, ◌&&◌, text_eq, text_eq_sound,
}
use issueflow.Prelude.Rows.{find_one_sound}
use issueflow.Entities.{User, is_null}
use issueflow.Store.{Db, Env, ok, ◌>>=◌}
use issueflow.Users
use issueflow.Audit.{record_entry, insert_row}
use issueflow.Auth.{LoginDto, LoginResult, TokenIssuer, issue, login}

-- A login that returns has found a live user of that name whose password hash accepts the password,
-- and has issued a token for that user.
pub login-issue :
    (env : Env) (issuer : TokenIssuer) (dto : LoginDto) (s s' : Db) (res : LoginResult)
    → login env issuer dto s ≡ (ok res, s')
    → (u : User) × (Users.find_by_username_with_password dto.username s ≡ (ok (some u), s))
      × (u.username ≡ dto.username)
      × (u.deleted_at ≡ none)
      × (env.compare dto.password u.password_hash ≡ true)
      × (res ≡ issue env issuer u)
unfolding login ◌>>=◌ Users.find_by_username_with_password record_entry insert_row
login-issue env issuer dto s s' res h = go (find_one named s.users) refl
  where
    named : User → Bool
    named u = text_eq u.username dto.username && is_null u.deleted_at

    go :
        (o : Option User)
        → find_one named s.users ≡ o
        → (u : User) × (Users.find_by_username_with_password dto.username s ≡ (ok (some u), s))
          × (u.username ≡ dto.username)
          × (u.deleted_at ≡ none)
          × (env.compare dto.password u.password_hash ≡ true)
          × (res ≡ issue env issuer u)
    go none e = ground arith
    go (some u) e =
        let fits : named u ≡ true = find_one_sound named s.users e in
        (
          u,
          ground arith,
          text_eq_sound u.username dto.username (ground arith),
          ground arith,
          ground arith,
          ground arith,
        )
