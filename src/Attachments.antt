-- ===== src/Attachments.antt =====
-- tickets/attachments/attachments.service.ts.
pub mod RoundTrip
use issueflow.Prelude.{
  ℕ, Text, ◌==◌, ◌&&◌, ◌||◌, true, false, Option, none, some, List, [], ◌∷◌, ◌++◌, map, filter,
  find_one, update_where, contains, is_empty, if◌then◌else◌,
}
use issueflow.Enums.{AuditAction, attachment_entity, create_action, delete_action, restore_action}
use issueflow.Entities.{Attachment, is_null, uploaded, of_ticket, cascade_attachment}
use issueflow.Store.{Env, Exec, not_found, pure, gets, or_raise, modify, for_each, ◌>>=◌, ◌>>◌, ok}
use issueflow.Audit.{actor_of, input, record_entry}
use issueflow.Tickets.Base
use issueflow.Tickets.Base.{CascadeHandler}

pub record AttachmentMetadata : Type 0 where
  pub id : ℕ
  pub ticket_id : ℕ
  pub filename : Text
  pub content_type : Text

pub record UploadArgs : Type 0 where
  pub ticket_id : ℕ
  pub originalname : Text
  pub mimetype : Text
  pub size : ℕ
  pub buffer : List ℕ
  pub actor_user_id : ℕ

module _ (env : Env) where
  unfoldable pub new_attachment : UploadArgs → List Attachment → Attachment
  new_attachment args rows = record {
    id = env.next_id (map (λ a. a.id) rows);
    ticket_id = args.ticket_id;
    filename = args.originalname;
    content_type = args.mimetype;
    size_bytes = args.size;
    contents = args.buffer;
    uploaded_by = some args.actor_user_id;
    deleted_by_cascade = false;
    uploaded_at = env.now;
    deleted_at = none;
  }

  unfoldable pub upload : UploadArgs → Exec AttachmentMetadata
  unfolding new_attachment
  upload args = do
    Base.assert_active args.ticket_id
    saved ← gets (λ s. new_attachment args s.attachments)
    modify λ s. record s { attachments = s.attachments ++ saved ∷ [] }
    record_entry env (
        input create_action attachment_entity saved.id (actor_of (some args.actor_user_id))
          (some (uploaded args.ticket_id saved.filename saved.size_bytes)))
    pure (record {
      id = saved.id;
      ticket_id = saved.ticket_id;
      filename = saved.filename;
      content_type = saved.content_type;
    })

  -- An attachment of another ticket is treated as missing.
  abbrev pub of_route : ℕ → Option Attachment → Option Attachment
  of_route ticket_id none = none
  of_route ticket_id (some a) = if a.ticket_id == ticket_id then some a else none

  unfoldable pub delete : ℕ → ℕ → Option ℕ → Exec Unit
  delete ticket_id attachment_id actor_user_id = do
    found ←
        gets (λ s. find_one (λ a. (a.id == attachment_id) && is_null a.deleted_at) s.attachments)
    or_raise (of_route ticket_id found) (not_found attachment_entity attachment_id)
    modify λ s. record s {
      attachments =
          update_where (λ a. a.id == attachment_id) (λ a. record a { deleted_at = some env.now })
            s.attachments;
    }
    record_entry env (
        input delete_action attachment_entity attachment_id (actor_of actor_user_id)
          (some (of_ticket ticket_id)))

  unfoldable pub mark_deleted : List ℕ → List Attachment → List Attachment
  mark_deleted ticket_ids =
      update_where (λ a. contains ticket_ids a.ticket_id && is_null a.deleted_at)
        λ a. record a { deleted_at = some env.now; deleted_by_cascade = true }

  unfoldable pub mark_restored : List ℕ → List Attachment → List Attachment
  mark_restored ticket_ids =
      update_where (λ a. contains ticket_ids a.ticket_id && a.deleted_by_cascade)
        λ a. record a { deleted_at = none; deleted_by_cascade = false }

  record_each : AuditAction → Option ℕ → List ℕ → List Attachment → Exec Unit
  record_each action actor_user_id ticket_ids = for_each λ r. record_entry env (
      input action attachment_entity r.id (actor_of actor_user_id)
        (some (cascade_attachment r.ticket_id ticket_ids)))

  unfoldable pub cascade_soft_delete_attachments : CascadeHandler
  unfolding record_each
  cascade_soft_delete_attachments ticket_ids actor_user_id = do
    rows ←
        gets
          (λ s. filter (λ a. contains ticket_ids a.ticket_id && is_null a.deleted_at) s.attachments)
    if is_empty ticket_ids || is_empty rows then pure tt else do
      modify λ s'. record s' { attachments = mark_deleted ticket_ids s'.attachments }
      record_each delete_action actor_user_id ticket_ids rows

  unfoldable pub cascade_restore_attachments : CascadeHandler
  unfolding record_each
  cascade_restore_attachments ticket_ids actor_user_id = do
    rows ←
        gets
          (λ s. filter (λ a. contains ticket_ids a.ticket_id && a.deleted_by_cascade) s.attachments)
    if is_empty ticket_ids || is_empty rows then pure tt else do
      modify λ s'. record s' { attachments = mark_restored ticket_ids s'.attachments }
      record_each restore_action actor_user_id ticket_ids rows
