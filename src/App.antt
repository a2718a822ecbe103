-- ===== src/App.antt =====
-- The modules' `onModuleInit`: what comments, dependencies, attachments and auto-assignment register
-- with the tickets service, and the tickets service with the projects service.
pub mod Frames
use issueflow.Prelude.{Option, none, some}
use issueflow.Store.{Env}
use issueflow.Tickets.Base.{
  Registered, TicketCascadeTarget, nothing_registered, register_cascade_target,
  register_blockers_resolver, register_auto_assign_resolver,
}
use issueflow.Tickets.Cascade.{project_cascade_handler}
use issueflow.Projects.{ProjectCascadeHandler}
use issueflow.Comments.Cascade.{cascade_soft_delete_comments, cascade_restore_comments}
use issueflow.Dependencies.{
  cascade_soft_delete_dependencies, cascade_restore_dependencies, assert_blockers_resolved_for_done,
}
use issueflow.Attachments.{cascade_soft_delete_attachments, cascade_restore_attachments}
use issueflow.AutoAssign.{pick_assignee}

abbrev no_cascade : TicketCascadeTarget
no_cascade = nothing_registered.cascade

module _ (env : Env) where
  -- CommentsModule
  unfoldable pub init_comments : Registered → Registered
  unfolding register_cascade_target
  init_comments = register_cascade_target (record no_cascade {
    cascade_soft_delete_comments = some (cascade_soft_delete_comments env);
    cascade_restore_comments = some (cascade_restore_comments env);
  })

  -- DependenciesModule
  unfoldable pub init_dependencies : Registered → Registered
  unfolding register_cascade_target register_blockers_resolver
  init_dependencies r = register_blockers_resolver assert_blockers_resolved_for_done (
      register_cascade_target
        (record no_cascade {
          cascade_soft_delete_dependencies = some (cascade_soft_delete_dependencies env);
          cascade_restore_dependencies = some (cascade_restore_dependencies env);
        })
        r)

  -- AttachmentsModule
  unfoldable pub init_attachments : Registered → Registered
  unfolding register_cascade_target
  init_attachments = register_cascade_target (record no_cascade {
    cascade_soft_delete_attachments = some (cascade_soft_delete_attachments env);
    cascade_restore_attachments = some (cascade_restore_attachments env);
  })

  -- AutoAssignModule
  unfoldable pub init_auto_assign : Registered → Registered
  unfolding register_auto_assign_resolver
  init_auto_assign = register_auto_assign_resolver pick_assignee

  unfoldable pub app : Registered
  unfolding init_comments init_dependencies init_attachments init_auto_assign
  app = init_auto_assign (init_attachments (init_dependencies (init_comments nothing_registered)))

  -- TicketsModule
  unfoldable pub project_cascade : Option ProjectCascadeHandler
  project_cascade = some (project_cascade_handler env (app.cascade))
