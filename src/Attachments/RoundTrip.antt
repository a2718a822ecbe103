-- ===== src/Attachments/RoundTrip.antt =====
-- A cascade of a deletion to the attachments, and the cascade of the restoration.
use mathlib.Core.List.{Memᴰ}
use issueflow.Prelude.{
  ℕ, ◌≡◌, refl, true, false, ◌&&◌, Option, some, List, [], ◌∷◌, arith, contains, filter, is_empty,
  update_where, Bool-cases, inl, inr,
}
use issueflow.Entities.{Attachment, is_null, cascade_attachment}
use issueflow.Store.{Db, Env, ◌>>=◌}
use issueflow.Audit.{for_each-record_entry-frame, input, actor_of}
use issueflow.Prelude.Rows.{update_where-none}
use issueflow.Enums.{delete_action, restore_action, attachment_entity}
use issueflow.Attachments.{
  mark_deleted, mark_restored, cascade_soft_delete_attachments, cascade_restore_attachments,
}

module _ (env : Env) (ids : List ℕ) where
  marks_cancel :
      (rows : List Attachment)
      → ((a : Attachment)
          → Memᴰ a rows
          → contains ids a.ticket_id ≡ true
          → a.deleted_by_cascade ≡ false)
      → mark_restored env ids (mark_deleted env ids rows) ≡ rows
  unfolding mark_restored mark_deleted update_where
  marks_cancel [] clean = refl
  marks_cancel (a ∷ rows) clean =
      ground (arith, clean a (Memᴰ.head refl), marks_cancel rows (λ b m. clean b (Memᴰ.tail m)))

  no_ids :
      (rows : List Attachment)
      → is_empty ids ≡ true
      → (mark_deleted env ids rows ≡ rows) × (mark_restored env ids rows ≡ rows)
  unfolding mark_deleted mark_restored update_where contains
  no_ids [] e = (refl, refl)
  no_ids (a ∷ rows) e = ground (arith, no_ids rows e)

  delete-attachments :
      (actor : Option ℕ) (s : Db)
      → (cascade_soft_delete_attachments env ids actor s).1.attachments
        ≡ mark_deleted env ids s.attachments
  unfolding cascade_soft_delete_attachments ◌>>=◌
  delete-attachments actor s =
      let rows = filter (λ a. contains ids a.ticket_id && is_null a.deleted_at) s.attachments in
      elim (Bool-cases (is_empty ids)) [
        | inl e ↦ ground (arith, e, (no_ids s.attachments e).0)
        | inr e ↦ elim (Bool-cases (is_empty rows)) [
          | inl r ↦
              let same : mark_deleted env ids s.attachments ≡ s.attachments =
                unfold mark_deleted in update_where-none _ _ s.attachments r in
              ground (arith, e, r, same)
          | inr r ↦ ground (
            arith,
            e,
            r,
            for_each-record_entry-frame env
                (λ (a : Attachment).
                  input delete_action attachment_entity a.id (actor_of actor)
                    (some (cascade_attachment a.ticket_id ids)))
                rows (record s { attachments = mark_deleted env ids s.attachments }),
          )
        ]
      ]

  restore-attachments :
      (actor : Option ℕ) (s : Db)
      → (cascade_restore_attachments env ids actor s).1.attachments
        ≡ mark_restored env ids s.attachments
  unfolding cascade_restore_attachments ◌>>=◌
  restore-attachments actor s =
      let rows = filter (λ a. contains ids a.ticket_id && a.deleted_by_cascade) s.attachments in
      elim (Bool-cases (is_empty ids)) [
        | inl e ↦ ground (arith, e, (no_ids s.attachments e).1)
        | inr e ↦ elim (Bool-cases (is_empty rows)) [
          | inl r ↦
              let same : mark_restored env ids s.attachments ≡ s.attachments =
                unfold mark_restored in update_where-none _ _ s.attachments r in
              ground (arith, e, r, same)
          | inr r ↦ ground (
            arith,
            e,
            r,
            for_each-record_entry-frame env
                (λ (a : Attachment).
                  input restore_action attachment_entity a.id (actor_of actor)
                    (some (cascade_attachment a.ticket_id ids)))
                rows (record s { attachments = mark_restored env ids s.attachments }),
          )
        ]
      ]

  -- Restoring tickets brings the attachments back to what they were before the tickets were
  -- deleted, row by row, if none of theirs was already marked as deleted by a cascade.
  pub cascade_restore-cascade_soft_delete :
      (actor actor' : Option ℕ) (s : Db)
      → ((a : Attachment)
          → Memᴰ a s.attachments
          → contains ids a.ticket_id ≡ true
          → a.deleted_by_cascade ≡ false)
      → (cascade_restore_attachments env ids actor'
          (cascade_soft_delete_attachments env ids actor s).1).1.attachments
        ≡ s.attachments
  cascade_restore-cascade_soft_delete actor actor' s clean =
      rw (restore-attachments, delete-attachments) (marks_cancel s.attachments clean)
