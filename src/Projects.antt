-- ===== src/Projects.antt =====
-- projects/projects.service.ts. The tickets module registers itself as the cascade handler.
use issueflow.Prelude.{
  ℕ, Text, ◌==◌, ◌&&◌, not, Bool, true, false, Option, none, some, List, [], ◌∷◌, ◌++◌, map, filter,
  find_one, any, update_where, if◌then◌else◌,
}
use issueflow.Enums.{project_entity, create_action, update_action, delete_action, restore_action}
use issueflow.Entities.{Project, is_null}
use issueflow.Store.{
  Db, Env, Exec, not_found, pure, gets, or_raise, raise_if, modify, transaction, ◌>>=◌, ◌>>◌,
}
use issueflow.Audit.{actor_of, input, record_entry}
use issueflow.Users
use issueflow.Users.{or_else}

pub record ProjectCascadeHandler : Type 0 where
  pub cascade_soft_delete_for_project : ℕ → Option ℕ → Exec Unit
  pub cascade_restore_for_project : ℕ → Option ℕ → Exec Unit

pub record CreateProjectDto : Type 0 where
  pub name : Text
  pub description : Text
  pub owner_id : ℕ

pub record UpdateProjectDto : Type 0 where
  pub name : Option Text
  pub description : Option Text

abbrev pub is_live_project : ℕ → Project → Bool
is_live_project id p = (p.id == id) && is_null p.deleted_at

unfoldable pub find_all : Exec (List Project)
find_all = gets λ s. filter (λ p. is_null p.deleted_at) s.projects

unfoldable pub find_live : ℕ → Exec Project
find_live id = do
  found ← gets (λ s. find_one (is_live_project id) s.projects)
  or_raise found (not_found project_entity id)

unfoldable pub find_all_deleted : Exec (List Project)
find_all_deleted = gets λ s. filter (λ p. not (is_null p.deleted_at)) s.projects

unfoldable pub exists_and_active : ℕ → Db → Bool
exists_and_active id s = any (is_live_project id) s.projects

unfoldable pub assert_active : ℕ → Exec Unit
unfolding exists_and_active
assert_active id s = raise_if (not (exists_and_active id s)) (not_found project_entity id) s

unfoldable pub exists_including_deleted : ℕ → Db → Bool
exists_including_deleted id s = any (λ p. p.id == id) s.projects

-- `Object.keys(dto).length === 0`.
abbrev pub is_blank : UpdateProjectDto → Bool
is_blank dto = elim dto.name [
  | some n ↦ false
  | none ↦ elim dto.description [ some d ↦ false | none ↦ true ]
]

unfoldable pub patch_project : UpdateProjectDto → Project → Project
patch_project dto p = record p {
  name = or_else dto.name p.name;
  description = or_else dto.description p.description;
}

module _ (env : Env) where
  unfoldable pub new_project : CreateProjectDto → List Project → Project
  new_project dto rows = record {
    id = env.next_id (map (λ p. p.id) rows);
    name = dto.name;
    description = dto.description;
    owner_id = dto.owner_id;
    created_at = env.now;
    deleted_at = none;
  }

  unfoldable pub create : CreateProjectDto → Option ℕ → Exec Project
  unfolding new_project
  create dto actor_user_id = do
    Users.assert_active dto.owner_id
    saved ← gets (λ s. new_project dto s.projects)
    modify λ s. record s { projects = s.projects ++ saved ∷ [] }
    record_entry env (input create_action project_entity saved.id (actor_of actor_user_id) none)
    pure saved

  unfoldable pub save_patch : UpdateProjectDto → Option ℕ → Project → Exec Project
  unfolding patch_project
  save_patch dto actor_user_id p = do
    modify λ s. record s {
      projects = update_where (λ r. r.id == p.id) (λ r. patch_project dto p) s.projects;
    }
    record_entry env (input update_action project_entity p.id (actor_of actor_user_id) none)
    pure (patch_project dto p)

  unfoldable pub update : ℕ → UpdateProjectDto → Option ℕ → Exec Project
  unfolding find_live save_patch
  update id dto actor_user_id = do
    p ← find_live id
    if is_blank dto then pure p else save_patch dto actor_user_id p

module _ (env : Env) (cascade_handler : Option ProjectCascadeHandler) where
  unfoldable pub run_cascade_delete : ℕ → Option ℕ → Exec Unit
  run_cascade_delete id actor_user_id = elim cascade_handler [
    | none ↦ pure tt
    | some h ↦ h.cascade_soft_delete_for_project id actor_user_id
  ]

  unfoldable pub run_cascade_restore : ℕ → Option ℕ → Exec Unit
  run_cascade_restore id actor_user_id = elim cascade_handler [
    | none ↦ pure tt
    | some h ↦ h.cascade_restore_for_project id actor_user_id
  ]

  -- Only `softRemove` goes through the transaction's manager.
  unfoldable pub soft_delete : ℕ → Option ℕ → Exec Unit
  unfolding find_live run_cascade_delete
  soft_delete id actor_user_id = do
    p ← find_live id
    transaction (λ s s'. record s' { projects = s.projects })
        (do
          modify λ s. record s {
            projects =
                update_where (λ r. r.id == p.id) (λ r. record r { deleted_at = some env.now })
                  s.projects;
          }
          record_entry env (input delete_action project_entity p.id (actor_of actor_user_id) none)
          run_cascade_delete p.id actor_user_id)

  unfoldable pub bring_back : ℕ → Option ℕ → Project → Exec Project
  unfolding run_cascade_restore find_live
  bring_back id actor_user_id p = do
    modify λ s. record s {
      projects = update_where (λ r. r.id == id) (λ r. record r { deleted_at = none }) s.projects;
    }
    record_entry env (input restore_action project_entity p.id (actor_of actor_user_id) none)
    run_cascade_restore p.id actor_user_id
    find_live id

  unfoldable pub restore : ℕ → Option ℕ → Exec Project
  unfolding bring_back
  restore id actor_user_id = do
    found ← gets (λ s. find_one (λ p. p.id == id) s.projects)
    p ← or_raise found (not_found project_entity id)
    if is_null p.deleted_at then pure p else bring_back id actor_user_id p
