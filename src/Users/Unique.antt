-- ===== src/Users/Unique.antt =====
-- The names and addresses of the users that are not deleted.
use issueflow.Prelude.{
  ℕ, Text, text_eq, ◌≡◌, refl, arith, true, false, Bool, Option, none, some, List, [], ◌∷◌, ◌++◌,
  any, update_where, find_one, ◌==◌, ◌||◌,
}
use issueflow.Entities.{User, is_null}
use issueflow.Store.{Db, Env, ok, ◌>>=◌}
use issueflow.Audit.{record_entry, insert_row}
use issueflow.Users.{
  Actor, CreateUserDto, UserResponse, clashes, new_user, save_new, create, find_live, soft_delete,
  is_live_user,
}

-- No two users that are not deleted share a username or an email.
abbrev pub NoClash : List User → Type 0
NoClash [] = Unit
NoClash (u ∷ us) = (is_null u.deleted_at ≡ true → any (clashes u) us ≡ false) × NoClash us

text_eq_comm : (s t : Text) → text_eq s t ≡ text_eq t s
unfolding text_eq
text_eq_comm [] [] = refl
text_eq_comm [] (b ∷ t) = refl
text_eq_comm (a ∷ s) [] = refl
text_eq_comm (a ∷ s) (b ∷ t) = ground (arith, text_eq_comm s t)

any-append_one :
    (p : User → Bool) (us : List User) (v : User) → any p (us ++ v ∷ []) ≡ any p us || p v
unfolding any
any-append_one p [] v = ground arith
any-append_one p (u ∷ us) v = ground (arith, any-append_one p us v)

pub NoClash-append_one :
    (us : List User) (v : User) → NoClash us → any (clashes v) us ≡ false → NoClash (us ++ v ∷ [])
unfolding any clashes
NoClash-append_one [] v n h = ((λ live. refl), tt)
NoClash-append_one (u ∷ us) v n h = (
  (λ live. ground (
    arith,
    n.0 live,
    any-append_one (clashes u) us v,
    text_eq_comm v.username u.username,
    text_eq_comm v.email u.email,
  )),
  NoClash-append_one us v n.1 (ground arith),
)

any-update_where :
    (p q : User → Bool) (f : User → User) (us : List User)
    → ((r : User) → q r ≡ false → q (f r) ≡ false)
    → any q us ≡ false
    → any q (update_where p f us) ≡ false
unfolding any update_where
any-update_where p q f [] k h = refl
any-update_where p q f (u ∷ us) k h = ground (arith, k u, any-update_where p q f us k)

NoClash-delete :
    (p : User → Bool) (now : ℕ) (us : List User)
    → NoClash us
    → NoClash (update_where p (λ r. record r { deleted_at = some now }) us)
unfolding update_where clashes
NoClash-delete p now [] n = tt
NoClash-delete p now (u ∷ us) n = (
  ground (
    arith,
    n.0,
    any-update_where p (clashes u) (λ r. record r { deleted_at = some now }) us
        (λ r k. ground arith),
  ),
  NoClash-delete p now us n.1,
)

-- If no two users that are not deleted share a username or an email, none do after a user was created.
pub create-NoClash :
    (env : Env) (dto : CreateUserDto) (actor : Option Actor) (s s' : Db) (res : UserResponse)
    → NoClash s.users
    → create env dto actor s ≡ (ok res, s')
    → NoClash s'.users
unfolding create save_new record_entry insert_row ◌>>=◌
create-NoClash env dto actor s s' res n h =
    let u = new_user env dto s.users in
    let free : any (clashes u) s.users ≡ false = ground arith in
    let same : s'.users ≡ s.users ++ u ∷ [] = ground arith in
    rw same (NoClash-append_one s.users u n free)

-- If no two users that are not deleted share a username or an email, none do after `soft_delete`,
-- whether it returns or fails.
pub soft_delete-NoClash :
    (env : Env) (id : ℕ) (actor : Option ℕ) (s : Db)
    → NoClash s.users
    → NoClash (soft_delete env id actor s).1.users
unfolding soft_delete find_live record_entry insert_row ◌>>=◌
soft_delete-NoClash env id actor s n = go (find_one (is_live_user id) s.users) refl
  where
    go :
        (o : Option User)
        → find_one (is_live_user id) s.users ≡ o
        → NoClash (soft_delete env id actor s).1.users
    go none e =
        let same : (soft_delete env id actor s).1.users ≡ s.users = ground arith in rw same n
    go (some u) e =
        let same : (soft_delete env id actor s).1.users
            ≡ update_where (λ r. r.id == u.id) (λ r. record r { deleted_at = some env.now })
                s.users =
          ground arith in
        rw same (NoClash-delete (λ r. r.id == u.id) env.now s.users n)
