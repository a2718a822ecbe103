-- ===== src/Api/Controllers/Projects.antt =====
-- projects/projects.controller.ts and tickets/auto-assign/workload.controller.ts.
use issueflow.Prelude.{ℕ, Option, some, map}
use issueflow.Store.{Env, Exec, pure, ◌>>=◌, ◌>>◌}
use issueflow.Auth.{CurrentUser}
use issueflow.AutoAssign
use issueflow.Projects as Service
use issueflow.Projects.{CreateProjectDto, UpdateProjectDto, ProjectCascadeHandler}
use issueflow.Api.Responses.{
  Reply, reply, no_body, project_body, projects_body, workload_body, project_from_entity,
}

unfoldable pub list_deleted : Exec Reply
list_deleted = do
  rows ← Service.find_all_deleted
  pure (reply (projects_body (map project_from_entity rows)))

unfoldable pub list : Exec Reply
list = do rows ← Service.find_all; pure (reply (projects_body (map project_from_entity rows)))

unfoldable pub get : ℕ → Exec Reply
get project_id = do
  project ← Service.find_live project_id
  pure (reply (project_body (project_from_entity project)))

unfoldable pub workload : ℕ → Exec Reply
workload project_id = do
  entries ← AutoAssign.get_project_workload project_id
  pure (reply (workload_body entries))

module _ (env : Env) where
  unfoldable pub create : CreateProjectDto → CurrentUser → Exec Reply
  create dto actor = do
    project ← Service.create env dto (some actor.id)
    pure (reply (project_body (project_from_entity project)))

  unfoldable pub update : ℕ → UpdateProjectDto → CurrentUser → Exec Reply
  update project_id dto actor = do
    Service.update env project_id dto (some actor.id)
    pure (reply no_body)

module _ (env : Env) (cascade_handler : Option ProjectCascadeHandler) where
  unfoldable pub delete : ℕ → CurrentUser → Exec Reply
  delete project_id actor = do
    Service.soft_delete env cascade_handler project_id (some actor.id)
    pure (reply no_body)

  unfoldable pub restore : ℕ → CurrentUser → Exec Reply
  restore project_id actor = do
    Service.restore env cascade_handler project_id (some actor.id)
    pure (reply no_body)
