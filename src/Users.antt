-- ===== src/Users.antt =====
-- users/users.service.ts. The unique indexes are those of users/entities/user.entity.ts.
pub mod Unique
use issueflow.Prelude.{
  ℕ, Text, text_eq, ◌==◌, ◌&&◌, ◌||◌, not, Bool, false, Option, none, some, List, [], ◌∷◌, ◌++◌,
  map, filter, find_one, any, update_where, is_empty, if◌then◌else◌,
}
use issueflow.Enums.{
  UserRole, admin, role_eq, user_entity, create_action, update_action, delete_action,
}
use issueflow.Entities.{User, is_null}
use issueflow.Store.{
  Db, Env, Exec, not_found, forbidden, conflict, pure, gets, or_raise, raise_if, modify, ◌>>=◌,
  ◌>>◌,
}
use issueflow.Audit.{actor_of, input, record_entry}

pub record Actor : Type 0 where
  pub id : ℕ
  pub role : UserRole

pub record CreateUserDto : Type 0 where
  pub username : Text
  pub email : Text
  pub full_name : Text
  pub role : UserRole
  pub password : Text

pub record UpdateUserDto : Type 0 where
  pub full_name : Option Text
  pub role : Option UserRole

pub record UserResponse : Type 0 where
  pub id : ℕ
  pub username : Text
  pub email : Text
  pub full_name : Text
  pub role : UserRole

unfoldable pub from_entity : User → UserResponse
from_entity u = record {
  id = u.id;
  username = u.username;
  email = u.email;
  full_name = u.full_name;
  role = u.role;
}

abbrev pub is_live_user : ℕ → User → Bool
is_live_user id u = (u.id == id) && is_null u.deleted_at

abbrev pub or_else : {A : Type 0} → Option A → A → A
or_else none a = a
or_else (some b) a = b

-- `actor?.id ?? null`.
abbrev pub actor_id : Option Actor → Option ℕ
actor_id none = none
actor_id (some a) = some a.id

-- UQ_users_username and UQ_users_email: among the rows that are not deleted.
unfoldable pub clashes : User → User → Bool
clashes u r = is_null r.deleted_at && (text_eq r.username u.username || text_eq r.email u.email)

unfoldable pub grants_admin : Option Actor → UserRole → Bool
grants_admin none role = false
grants_admin (some a) role = role_eq role admin && not (role_eq a.role admin)

module _ (env : Env) where
  unfoldable pub new_user : CreateUserDto → List User → User
  new_user dto users = record {
    id = env.next_id (map (λ u. u.id) users);
    username = dto.username;
    email = dto.email;
    full_name = dto.full_name;
    role = dto.role;
    password_hash = env.hash dto.password;
    created_at = env.now;
    deleted_at = none;
  }

  -- `users.save(user)` of a new user; error 23505 is turned into a conflict.
  unfoldable pub save_new : User → Exec Unit
  save_new u s =
      (do
        raise_if (any (clashes u) s.users) (conflict "Username or email already exists")
        modify λ s'. record s' { users = s'.users ++ u ∷ [] })
        s

  unfoldable pub create : CreateUserDto → Option Actor → Exec UserResponse
  unfolding grants_admin new_user save_new clashes from_entity
  create dto actor = do
    raise_if (grants_admin actor dto.role) (forbidden "Only admins can assign the ADMIN role")
    u ← gets (λ s. new_user dto s.users)
    save_new u
    record_entry env (input create_action user_entity u.id (actor_of (actor_id actor)) none)
    pure (from_entity u)

unfoldable pub find_all : Exec (List UserResponse)
unfolding from_entity
find_all = gets λ s. map from_entity (filter (λ u. is_null u.deleted_at) s.users)

unfoldable pub find_live : ℕ → Exec User
find_live id = do
  found ← gets (λ s. find_one (is_live_user id) s.users)
  or_raise found (not_found user_entity id)

unfoldable pub find_one_response : ℕ → Exec UserResponse
unfolding find_live from_entity
find_one_response id = do u ← find_live id; pure (from_entity u)

unfoldable pub find_optional_including_deleted : ℕ → Exec (Option User)
find_optional_including_deleted id = gets λ s. find_one (λ u. u.id == id) s.users

unfoldable pub find_one_including_deleted : ℕ → Exec User
unfolding find_optional_including_deleted
find_one_including_deleted id = do
  found ← find_optional_including_deleted id
  or_raise found (not_found user_entity id)

-- The role checks of `update`; a null actor is a trusted internal caller.
unfoldable pub assert_role_change : ℕ → UpdateUserDto → Option Actor → Exec Unit
assert_role_change id dto none = pure tt
assert_role_change id dto (some a) = elim dto.role [
  | none ↦ pure tt
  | some r ↦ do
    raise_if (not (role_eq a.role admin)) (forbidden "Only admins can change a user role")
    raise_if (id == a.id) (forbidden "Admins cannot change their own role")
]

unfoldable pub patch_user : UpdateUserDto → User → User
patch_user dto u = record u {
  full_name = or_else dto.full_name u.full_name;
  role = or_else dto.role u.role;
}

module _ (env : Env) where
  unfoldable pub update : ℕ → UpdateUserDto → Option Actor → Exec UserResponse
  unfolding assert_role_change find_live patch_user from_entity
  update id dto actor = do
    assert_role_change id dto actor
    u ← find_live id
    modify
        λ s. record s { users = update_where (λ r. r.id == u.id) (λ r. patch_user dto u) s.users }
    record_entry env (input update_action user_entity u.id (actor_of (actor_id actor)) none)
    pure (from_entity (patch_user dto u))

  unfoldable pub soft_delete : ℕ → Option ℕ → Exec Unit
  unfolding find_live
  soft_delete id actor_user_id = do
    u ← find_live id
    modify λ s. record s {
      users =
          update_where (λ r. r.id == u.id) (λ r. record r { deleted_at = some env.now }) s.users;
    }
    record_entry env (input delete_action user_entity u.id (actor_of actor_user_id) none)

unfoldable pub find_by_username_with_password : Text → Exec (Option User)
find_by_username_with_password name =
    gets λ s. find_one (λ u. text_eq u.username name && is_null u.deleted_at) s.users

-- `count({id, deletedAt: IsNull() }) > 0`.
unfoldable pub exists_and_active : ℕ → Db → Bool
exists_and_active id s = any (is_live_user id) s.users

unfoldable pub assert_active : ℕ → Exec Unit
unfolding exists_and_active
assert_active id s = raise_if (not (exists_and_active id s)) (not_found user_entity id) s

unfoldable pub find_active_by_id : ℕ → Exec (Option User)
find_active_by_id id = gets λ s. find_one (is_live_user id) s.users

module _ (env : Env) where
  unfoldable pub in_texts : List Text → Text → Bool
  in_texts ts t = any (λ x. text_eq x t) ts

  unfoldable pub find_by_usernames_case_insensitive : List Text → Exec (List User)
  unfolding in_texts
  find_by_usernames_case_insensitive usernames =
      if is_empty usernames
      then pure []
      else let lower = map env.to_lower usernames in
        gets λ s.
          filter (λ u. in_texts lower (env.sql_lower u.username) && is_null u.deleted_at) s.users
