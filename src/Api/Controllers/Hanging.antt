-- ===== src/Api/Controllers/Hanging.antt =====
-- tickets/attachments/attachments.controller.ts and tickets/dependencies/dependencies.controller.ts:
-- what hangs on a ticket. A file has passed the interceptor and the pipe before `upload`.
use issueflow.Prelude.{ℕ, Text, some, List}
use issueflow.Store.{Env, Exec, pure, ◌>>=◌, ◌>>◌}
use issueflow.Auth.{CurrentUser}
use issueflow.Attachments
use issueflow.Dependencies
use issueflow.Api.Responses.{Reply, reply, no_body, attachment_body, blockers_body}

-- `Express.Multer.File`.
pub record UploadedFile : Type 0 where
  pub originalname : Text
  pub mimetype : Text
  pub size : ℕ
  pub buffer : List ℕ

unfoldable pub list_dependencies : ℕ → Exec Reply
list_dependencies ticket_id = do
  blockers ← Dependencies.list_blockers ticket_id
  pure (reply (blockers_body blockers))

module _ (env : Env) where
  unfoldable pub upload : ℕ → UploadedFile → CurrentUser → Exec Reply
  upload ticket_id file actor = do
    saved ← Attachments.upload env (record {
      ticket_id = ticket_id;
      originalname = file.originalname;
      mimetype = file.mimetype;
      size = file.size;
      buffer = file.buffer;
      actor_user_id = actor.id;
    })
    pure (reply (attachment_body saved))

  unfoldable pub delete_attachment : ℕ → ℕ → CurrentUser → Exec Reply
  delete_attachment ticket_id attachment_id actor = do
    Attachments.delete env ticket_id attachment_id (some actor.id)
    pure (reply no_body)

  unfoldable pub add_dependency : ℕ → ℕ → CurrentUser → Exec Reply
  add_dependency ticket_id blocked_by actor = do
    Dependencies.add env ticket_id blocked_by (some actor.id)
    pure (reply no_body)

  unfoldable pub remove_dependency : ℕ → ℕ → CurrentUser → Exec Reply
  remove_dependency ticket_id blocked_by actor = do
    Dependencies.remove env ticket_id blocked_by (some actor.id)
    pure (reply no_body)
