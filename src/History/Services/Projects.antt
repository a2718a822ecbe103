-- ===== src/History/Services/Projects.antt =====
-- Projects, with the tickets that go and come with them.
use issueflow.Prelude.{
  ℕ, ◌≡◌, refl, arith, Bool, true, false, Option, none, some, map, find_one, if◌then◌else◌,
}
use issueflow.Entities.{Project}
use issueflow.Store.{Db, Env, ok, pure, ◌>>=◌}
use issueflow.App.{project_cascade}
use issueflow.Projects
use issueflow.Projects.{CreateProjectDto, UpdateProjectDto, is_live_project}
use issueflow.History.Tables.{Moves-append_one, Moves-update_where, Moves-save}
use issueflow.History.Later.{Later, Later_refl, ProjectBecomes, FreshIds, Project-Becoming}
use issueflow.History.Respects.{
  Respects, Respects-pure, Respects-gets, Respects-gets_bind, Respects-or_raise, Respects-if,
  Respects-bind, Respects-then, Respects-modify_then, modify_then, Respects-record_entry,
  Respects-transaction, bind_later,
}
use issueflow.History.Writes.{on_projects, undo_projects}
use issueflow.History.Services.Reading.{user_active-Respects, project_live-Respects}
use issueflow.History.Services.Removal.{project_deletes-Respects, project_restores-Respects}

module _ (env : Env) where
  pub create_project-Respects :
      FreshIds env
      → (dto : CreateProjectDto) (actor : Option ℕ) → Respects (Projects.create env dto actor)
  unfolding Projects.create Projects.new_project
  create_project-Respects fresh dto actor = Respects-then _ _ (user_active-Respects dto.owner_id) (
      Respects-gets_bind _ _ λ s.
        modify_then _ _ s
          (on_projects s _
            (Moves-append_one Project-Becoming s.projects _ (fresh (map (λ p. p.id) s.projects))))
          (Respects-then _ _ (Respects-record_entry env _) (Respects-pure _)))

  project_found :
      (id : ℕ) (s t : Db) (p : Project)
      → Projects.find_live id s ≡ (ok p, t)
      → find_one (is_live_project id) t.projects ≡ some p
  unfolding Projects.find_live ◌>>=◌
  project_found id s t p h = ground arith

  patched : (dto : UpdateProjectDto) (p : Project) → ProjectBecomes p (Projects.patch_project dto p)
  unfolding Projects.patch_project
  patched dto p = ground arith

  saved_later :
      (id : ℕ) (dto : UpdateProjectDto) (actor : Option ℕ) (p : Project) (s : Db)
      → find_one (is_live_project id) s.projects ≡ some p
      → Later s (Projects.save_patch env dto actor p s).1
  unfolding Projects.save_patch
  saved_later id dto actor p s found =
      modify_then _ _ s
        (on_projects s _ (
          Moves-save Project-Becoming (is_live_project id) p.id (Projects.patch_project dto p)
            s.projects found refl (patched dto p)))
        (Respects-then _ _ (Respects-record_entry env _) (Respects-pure _))

  pub update_project-Respects :
      (id : ℕ) (dto : UpdateProjectDto) (actor : Option ℕ)
      → Respects (Projects.update env id dto actor)
  unfolding Projects.update
  update_project-Respects id dto actor = record {
    at = λ s.
        bind_later _ _ s ((project_live-Respects id).at s)
          λ p t e. go (Projects.is_blank dto) p t (project_found id s t p e);
  }
    where
      go :
          (b : Bool) (p : Project) (t : Db)
          → find_one (is_live_project id) t.projects ≡ some p
          → Later t ((if b then pure p else Projects.save_patch env dto actor p) t).1
      go true p t found = Later_refl t
      go false p t found = saved_later id dto actor p t found

  deletion : (d : Option ℕ) (p : Project) → ProjectBecomes p (record p { deleted_at = d })
  deletion d p = ground arith

  pub delete_project-Respects :
      (id : ℕ) (actor : Option ℕ)
      → Respects (Projects.soft_delete env (project_cascade env) id actor)
  unfolding Projects.soft_delete Projects.run_cascade_delete project_cascade
  delete_project-Respects id actor = Respects-bind _ _ (project_live-Respects id) λ p.
      Respects-transaction _ _ undo_projects (
        Respects-modify_then _ _
          (λ s. on_projects s _ (
            Moves-update_where Project-Becoming _ _ s.projects
              (λ u r m h. deletion (some env.now) r)))
          (Respects-then _ _ (Respects-record_entry env _)
            (project_deletes-Respects env p.id actor)))

  bring_back-Respects :
      (id : ℕ) (actor : Option ℕ) (p : Project)
      → Respects (Projects.bring_back env (project_cascade env) id actor p)
  unfolding Projects.bring_back Projects.run_cascade_restore project_cascade
  bring_back-Respects id actor p =
      Respects-modify_then _ _
        (λ s.
          on_projects s _
            (Moves-update_where Project-Becoming _ _ s.projects (λ u r m h. deletion none r)))
        (Respects-then _ _ (Respects-record_entry env _)
          (Respects-then _ _ (project_restores-Respects env p.id actor) (project_live-Respects id)))

  pub restore_project-Respects :
      (id : ℕ) (actor : Option ℕ) → Respects (Projects.restore env (project_cascade env) id actor)
  unfolding Projects.restore
  restore_project-Respects id actor = Respects-bind _ _ (Respects-gets _) λ found.
      Respects-bind _ _ (Respects-or_raise found _)
        λ p. Respects-if _ _ _ (Respects-pure p) (bring_back-Respects id actor p)
