-- ===== src/History/Services/Attachments.antt =====
-- Attachments, their cascades included.
use issueflow.Prelude.{ℕ, arith, true, false, Option, none, some, List, map}
use issueflow.Entities.{Attachment}
use issueflow.Store.{Env}
use issueflow.Attachments
use issueflow.Attachments.{UploadArgs}
use issueflow.History.Tables.{Moves-append_one, Moves-update_where}
use issueflow.History.Later.{AttachmentBecomes, FreshIds, Attachment-Becoming}
use issueflow.History.Respects.{
  Respects, Respects-pure, Respects-gets, Respects-gets_bind, Respects-or_raise, Respects-if,
  Respects-bind, Respects-then, Respects-modify_then, modify_then, Respects-for_each,
  Respects-record_entry,
}
use issueflow.History.Writes.{on_attachments}
use issueflow.History.Services.Reading.{ticket_active-Respects}

module _ (env : Env) where
  pub upload-Respects : FreshIds env → (args : UploadArgs) → Respects (Attachments.upload env args)
  unfolding Attachments.upload Attachments.new_attachment
  upload-Respects fresh args = Respects-then _ _ (ticket_active-Respects args.ticket_id) (
      Respects-gets_bind _ _ λ s.
        modify_then _ _ s
          (on_attachments s _ (
            Moves-append_one Attachment-Becoming s.attachments _
              (fresh (map (λ a. a.id) s.attachments))))
          (Respects-then _ _ (Respects-record_entry env _) (Respects-pure _)))

  pub delete_attachment-Respects :
      (ticket_id id : ℕ) (actor : Option ℕ) → Respects (Attachments.delete env ticket_id id actor)
  unfolding Attachments.delete
  delete_attachment-Respects ticket_id id actor = Respects-bind _ _ (Respects-gets _) λ found.
      Respects-bind _ _ (Respects-or_raise _ _) λ a.
        Respects-modify_then _ _
          (λ s.
            on_attachments s _
              (Moves-update_where Attachment-Becoming _ _ s.attachments (λ u r m h. kept r)))
          (Respects-record_entry env _)
    where
      kept : (r : Attachment) → AttachmentBecomes r (record r { deleted_at = some env.now })
      kept r = ground arith

  pub attachments_deleted-Respects :
      (ids : List ℕ) (actor : Option ℕ)
      → Respects (Attachments.cascade_soft_delete_attachments env ids actor)
  unfolding Attachments.cascade_soft_delete_attachments Attachments.mark_deleted
  attachments_deleted-Respects ids actor = Respects-bind _ _ (Respects-gets _) λ rows.
      Respects-if _ _ _ (Respects-pure tt) (
        Respects-modify_then _ _
          (λ s.
            on_attachments s _
              (Moves-update_where Attachment-Becoming _ _ s.attachments (λ u r m h. kept r)))
          (Respects-for_each _ rows (λ r. Respects-record_entry env _)))
    where
      kept :
          (r : Attachment)
          → AttachmentBecomes r (record r { deleted_at = some env.now; deleted_by_cascade = true })
      kept r = ground arith

  pub attachments_restored-Respects :
      (ids : List ℕ) (actor : Option ℕ)
      → Respects (Attachments.cascade_restore_attachments env ids actor)
  unfolding Attachments.cascade_restore_attachments Attachments.mark_restored
  attachments_restored-Respects ids actor = Respects-bind _ _ (Respects-gets _) λ rows.
      Respects-if _ _ _ (Respects-pure tt) (
        Respects-modify_then _ _
          (λ s.
            on_attachments s _
              (Moves-update_where Attachment-Becoming _ _ s.attachments (λ u r m h. kept r)))
          (Respects-for_each _ rows (λ r. Respects-record_entry env _)))
    where
      kept :
          (r : Attachment)
          → AttachmentBecomes r (record r { deleted_at = none; deleted_by_cascade = false })
      kept r = ground arith
