-- ===== src/History/Services/Accounts.antt =====
-- Users, logins and the audit log.
use issueflow.Prelude.{
  false, ℕ, ◌*◌, ltb, filter, not, ◌≡◌, refl, ap, arith, Option, none, some, map, any, find_one,
  Text, if◌then◌else◌,
}
use issueflow.Enums.{delete_action, user_entity, by_user}
use issueflow.Audit.{input, record_entry}
use issueflow.Entities.{User, logout_event}
use issueflow.Store.{Db, Env, ok, raise_if, ◌>>=◌}
use issueflow.Users
use issueflow.Users.{
  Actor, CreateUserDto, UpdateUserDto, is_live_user, clashes, new_user, patch_user,
}
use issueflow.Auth
use issueflow.Auth.{LoginDto, TokenIssuer, JwtPayload}
use issueflow.History.Tables.{Moves-append_one, Moves-update_where, Moves-save}
use issueflow.History.Later.{
  Later, Later_refl, Onward, Onward-Later, Onward-trans, UserBecomes, FreshIds, User-Becoming,
}
use issueflow.Users.Unique.{NoClash-append_one}
use issueflow.History.Names.{NoClash-update_where, NoClash-save}
use issueflow.History.Respects.{
  Respects, Respects-pure, Respects-gets, Respects-gets_bind, Respects-raise_if, Respects-if,
  Respects-bind, Respects-then, Respects-raise, Respects-modify_then, modify_then,
  Respects-record_entry, Respects-reads, bind_later,
}
use issueflow.History.Writes.{on_users, on_tokens}
use issueflow.History.Services.Reading.{user_live-Respects}

module _ (env : Env) where
  -- A role check, an insert that a unique index may refuse, and the audit row.
  pub create_user-Respects :
      FreshIds env
      → (dto : CreateUserDto) (actor : Option Actor) → Respects (Users.create env dto actor)
  unfolding Users.create Users.save_new Users.new_user
  create_user-Respects fresh dto actor = Respects-then _ _ (Respects-raise_if _ _) (
      Respects-gets_bind _ _ λ s.
        bind_later _ _ s (saved s)
          (λ u t e. (Respects-then _ _ (Respects-record_entry env _) (Respects-pure _)).at t))
    where
      saved : (s : Db) → Later s (Users.save_new env (new_user env dto s.users) s).1
      saved s =
          bind_later (raise_if (any (clashes (new_user env dto s.users)) s.users) _) _ s
            (Later_refl s)
            λ u t e.
              let same : s ≡ t = ap (λ r. r.1) e in
              let free : any (clashes (new_user env dto s.users)) s.users ≡ false = ground arith in
              rw (← same) (
                on_users s _
                  (Moves-append_one User-Becoming s.users _ (fresh (map (λ u. u.id) s.users)))
                  (λ k n. NoClash-append_one s.users _ n free))

  user_found :
      (id : ℕ) (s t : Db) (u : User)
      → Users.find_live id s ≡ (ok u, t)
      → (t ≡ s) × (find_one (is_live_user id) t.users ≡ some u)
  unfolding Users.find_live ◌>>=◌
  user_found id s t u h = ground arith

  role_change-Respects :
      (id : ℕ) (dto : UpdateUserDto) (actor : Option Actor)
      → Respects (Users.assert_role_change id dto actor)
  unfolding Users.assert_role_change ◌>>=◌
  role_change-Respects id dto actor = Respects-reads _ (λ s. ground arith)

  patched : (dto : UpdateUserDto) (u : User) → UserBecomes u (patch_user dto u)
  unfolding patch_user
  patched dto u = ground arith

  pub update_user-Respects :
      (id : ℕ) (dto : UpdateUserDto) (actor : Option Actor)
      → Respects (Users.update env id dto actor)
  unfolding Users.update
  update_user-Respects id dto actor =
      Respects-then _ _ (role_change-Respects id dto actor) (record {
        at = λ s. bind_later _ _ s ((user_live-Respects id).at s) λ u t e.
            let (same, found) = user_found id s t u e in
            modify_then _ _ t
              (on_users t _
                (Moves-save User-Becoming (is_live_user id) u.id (patch_user dto u) t.users found
                  refl (patched dto u))
                (NoClash-save (is_live_user id) (patch_user dto u) t.users found (patched dto u)))
              (Respects-then _ _ (Respects-record_entry env _) (Respects-pure _));
      })

  pub delete_user-Respects : (id : ℕ) (actor : Option ℕ) → Respects (Users.soft_delete env id actor)
  unfolding Users.soft_delete
  delete_user-Respects id actor = Respects-bind _ _ (user_live-Respects id) λ u.
      Respects-modify_then _ _
        (λ s.
          on_users s _ (Moves-update_where User-Becoming _ _ s.users (λ k r m h. kept r))
            (λ k n. NoClash-update_where _ _ s.users (λ r m h. kept r) n))
        (Respects-record_entry env _)
    where
      kept : (r : User) → UserBecomes r (record r { deleted_at = some env.now })
      kept r = ground arith

  pub login-Respects :
      (issuer : TokenIssuer) (dto : LoginDto) → Respects (Auth.login env issuer dto)
  unfolding Auth.login Users.find_by_username_with_password
  login-Respects issuer dto = Respects-bind _ _ (Respects-gets _) λ found. go found
    where
      go :
          (o : Option User)
          → Respects (elim o [
            | none ↦ Auth.reject_unknown env issuer dto
            | some u ↦
                if env.compare dto.password u.password_hash
                then Auth.accept env issuer u
                else Auth.reject_password env issuer dto u
          ])
      go none = Respects-then _ _ (Respects-record_entry env _) (Respects-raise _)
      go (some u) =
          Respects-if _ _ _ (Respects-then _ _ (Respects-record_entry env _) (Respects-pure _))
            (Respects-then _ _ (Respects-record_entry env _) (Respects-raise _))

  pub logout-Onward : (jti : Text) (id exp : ℕ) (s : Db) → Onward s (Auth.logout env jti id exp s).1
  unfolding Auth.logout Auth.add_token ◌>>=◌
  logout-Onward jti id exp s =
      let t = (Auth.add_token jti (exp * 1000) s).1 in
      let inp =
        input delete_action user_entity id (record { performed_by = some id; actor = by_user })
          (some logout_event) in
      let u = (record_entry env inp t).1 in
      Onward-trans s t u (on_tokens s t.tokens)
        (Onward-Later t u ((Respects-record_entry env inp).at t))

  pub sweep-Onward : (s : Db) → Onward s (Auth.sweep_expired env s).1
  unfolding Auth.sweep_expired
  sweep-Onward s = on_tokens s (filter (λ r. not (ltb r.expires_at env.now)) s.tokens)
