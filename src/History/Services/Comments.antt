-- ===== src/History/Services/Comments.antt =====
-- Comments and mentions, their cascades included.
use issueflow.Prelude.{
  ℕ, ◌≡◌, refl, arith, ◌==◌, ◌&&◌, Bool, true, false, Option, none, some, List, map, any, contains,
  find_one, Text, if◌then◌else◌,
}
use issueflow.Entities.{Comment}
use issueflow.Store.{Db, Env, Result, ok, raise, unexpected, ◌>>=◌}
use issueflow.Users.{Actor}
use issueflow.Comments.Base as Comments
use issueflow.Comments.Base.{CreateCommentDto, add_mentions}
use issueflow.Comments.Edit
use issueflow.Comments.Edit.{is_live_comment, saved_comment}
use issueflow.Comments.Cascade
use issueflow.Tickets.Base
use issueflow.History.Tables.{Moves-append_one, Moves-update_where, Moves-save}
use issueflow.History.Later.{Later, Later_refl, CommentBecomes, FreshIds, Comment-Becoming}
use issueflow.History.Respects.{
  Respects, Respects-pure, Respects-gets, Respects-gets_bind, Respects-raise_if, Respects-if,
  Respects-bind, Respects-then, Respects-modify_then, Respects-modify, modify_then,
  Respects-for_each, Respects-record_entry, Respects-transaction, Respects-reads, bind_later,
}
use issueflow.History.Writes.{on_comments, on_rest, undo_comments}
use issueflow.History.Services.Reading.{
  ticket_active-Respects, user_active-Respects, version_matches-Respects, resolve-Respects,
}

module _ (env : Env) where
  -- The insert of mentions, whether the index takes it or not.
  insert_mentions-Respects :
      (comment_id : ℕ) (ids : List ℕ) → Respects (Comments.insert_mentions env comment_id ids)
  unfolding Comments.insert_mentions
  insert_mentions-Respects comment_id ids = record {
    at = λ s. go s (any (λ m. (m.comment_id == comment_id) && contains ids m.user_id) s.mentions);
  }
    where
      go :
          (s : Db) (b : Bool)
          → Later s
              (let q : Result Unit × Db = if b then raise unexpected s else (
                ok tt,
                record s { mentions = add_mentions env comment_id ids s.mentions },
              ) in
                q).1
      go s true = Later_refl s
      go s false = on_rest s _ s.deps (λ u a. a)

  pub create_comment-Respects :
      FreshIds env
      → (ticket_id : ℕ) (dto : CreateCommentDto) (actor : Option ℕ)
      → Respects (Comments.create env ticket_id dto actor)
  unfolding Comments.create Comments.insert_comment Comments.new_comment
  create_comment-Respects fresh ticket_id dto actor =
      Respects-then _ _ (ticket_active-Respects ticket_id) (
        Respects-then _ _ (user_active-Respects dto.author_id) (
          Respects-bind _ _ (resolve-Respects env dto.content) λ users.
            Respects-bind _ _
              (Respects-transaction _ _ undo_comments (
                Respects-gets_bind _ _ λ s.
                  modify_then _ _ s
                    (on_comments s _ s.mentions (
                      Moves-append_one Comment-Becoming s.comments _
                        (fresh (map (λ c. c.id) s.comments))))
                    (Respects-then _ _
                      (Respects-if _ _ _ (Respects-pure tt) (insert_mentions-Respects _ _))
                      (Respects-then _ _ (Respects-record_entry env _) (Respects-pure _)))))
              λ saved. Respects-pure _))

  sync-Respects : (comment_id : ℕ) (ids : List ℕ) → Respects (Edit.sync_mentions env comment_id ids)
  unfolding Edit.sync_mentions
  sync-Respects comment_id ids = Respects-bind _ _ (Respects-gets _) λ gone.
      Respects-bind _ _ (Respects-gets _) λ fresh.
        Respects-then _ _
          (Respects-if _ _ _ (Respects-pure tt)
            (Respects-modify _ (λ s. on_rest s _ s.deps (λ u a. a))))
          (Respects-if _ _ _ (Respects-pure tt) (insert_mentions-Respects _ _))

  editable-Respects :
      (route_ticket_id comment_id : ℕ) (actor : Option Actor) (version : ℕ) (c : Comment)
      → Respects (Edit.assert_editable route_ticket_id comment_id actor version c)
  unfolding Edit.assert_editable
  editable-Respects route_ticket_id comment_id actor version c =
      Respects-then _ _ (Respects-raise_if _ _)
        (Respects-then _ _ (Respects-raise_if _ _) (version_matches-Respects _ _ _))

  -- The comment that is found, where the checks behind it leave the state as it is.
  comment_found :
      (id : ℕ) (s t : Db) (c : Comment)
      → Edit.find_live id s ≡ (ok c, t)
      → (t ≡ s) × (find_one (is_live_comment id) t.comments ≡ some c)
  unfolding Edit.find_live ◌>>=◌
  comment_found id s t c h = ground arith

  editable_reads :
      (route_ticket_id comment_id : ℕ) (actor : Option Actor) (version : ℕ) (c : Comment) (s t : Db)
      → Edit.assert_editable route_ticket_id comment_id actor version c s ≡ (ok tt, t)
      → s ≡ t
  unfolding Edit.assert_editable Base.assert_version_matches ◌>>=◌
  editable_reads route_ticket_id comment_id actor version c s t h = ground arith

  saved : (content : Text) (c : Comment) → CommentBecomes c (saved_comment env content c)
  unfolding saved_comment
  saved content c = ground arith

  live_comment-Respects : (id : ℕ) → Respects (Edit.find_live id)
  unfolding Edit.find_live ◌>>=◌
  live_comment-Respects id = Respects-reads _ (λ s. ground arith)

  pub update_comment-Respects :
      (route_ticket_id comment_id : ℕ) (content : Text) (actor : Option Actor) (version : ℕ)
      → Respects (Edit.update env route_ticket_id comment_id content actor version)
  unfolding Edit.update Edit.update_in_transaction
  update_comment-Respects route_ticket_id comment_id content actor version =
      Respects-transaction _ _ undo_comments (record {
        at = λ s. bind_later _ _ s ((live_comment-Respects comment_id).at s) λ c t e.
            let (same, found) = comment_found comment_id s t c e in
            bind_later _ _ t ((editable-Respects route_ticket_id comment_id actor version c).at t)
              λ u t' e'.
                let there : t ≡ t' =
                  editable_reads route_ticket_id comment_id actor version c t t' e' in
                let found' : find_one (is_live_comment comment_id) t'.comments ≡ some c =
                  rw there at found in
                modify_then _ _ t'
                  (on_comments t' _ t'.mentions (
                    Moves-save Comment-Becoming (is_live_comment comment_id) c.id
                      (saved_comment env content c) t'.comments found' refl (saved content c)))
                  (Respects-bind _ _ (resolve-Respects env content) λ users.
                    Respects-then _ _ (sync-Respects _ _)
                      (Respects-then _ _ (Respects-record_entry env _) (Respects-pure _)));
      })

  pub delete_comment-Respects :
      (route_ticket_id comment_id : ℕ) (actor : Option Actor) (version : ℕ)
      → Respects (Edit.delete env route_ticket_id comment_id actor version)
  unfolding Edit.delete
  delete_comment-Respects route_ticket_id comment_id actor version =
      Respects-bind _ _ (live_comment-Respects comment_id) λ c.
        Respects-then _ _ (editable-Respects route_ticket_id comment_id actor version c) (
          Respects-modify_then _ _
            (λ s.
              on_comments s _ _
                (Moves-update_where Comment-Becoming _ _ s.comments (λ u r m h. kept r)))
            (Respects-record_entry env _))
    where
      kept :
          (r : Comment)
          → CommentBecomes r
              (record r { deleted_at = some env.now; version = env.bulk_version r.version })
      kept r = ground arith

  pub comments_deleted-Respects :
      (ids : List ℕ) (actor : Option ℕ)
      → Respects (Cascade.cascade_soft_delete_comments env ids actor)
  unfolding Cascade.cascade_soft_delete_comments Cascade.mark_deleted
  comments_deleted-Respects ids actor = Respects-bind _ _ (Respects-gets _) λ rows.
      Respects-if _ _ _ (Respects-pure tt) (
        Respects-modify_then _ _
          (λ s.
            on_comments s _ _
              (Moves-update_where Comment-Becoming _ _ s.comments (λ u r m h. kept r)))
          (Respects-for_each _ rows (λ r. Respects-record_entry env _)))
    where
      kept :
          (r : Comment)
          → CommentBecomes r (record r {
            deleted_at = some env.now;
            deleted_by_cascade = true;
            version = env.bulk_version r.version;
          })
      kept r = ground arith

  mention_again-Respects : (c : Comment) → Respects (Cascade.mention_again env c)
  unfolding Cascade.mention_again
  mention_again-Respects c =
      Respects-bind _ _ (resolve-Respects env c.content)
        λ users. Respects-if _ _ _ (Respects-pure tt) (insert_mentions-Respects _ _)

  pub comments_restored-Respects :
      (ids : List ℕ) (actor : Option ℕ) → Respects (Cascade.cascade_restore_comments env ids actor)
  unfolding Cascade.cascade_restore_comments Cascade.mark_restored
  comments_restored-Respects ids actor = Respects-bind _ _ (Respects-gets _) λ rows.
      Respects-if _ _ _ (Respects-pure tt) (
        Respects-modify_then _ _
          (λ s.
            on_comments s _ s.mentions
              (Moves-update_where Comment-Becoming _ _ s.comments (λ u r m h. kept r)))
          (Respects-then _ _ (Respects-for_each _ rows mention_again-Respects)
            (Respects-for_each _ rows (λ r. Respects-record_entry env _))))
    where
      kept :
          (r : Comment)
          → CommentBecomes r (record r {
            deleted_at = none;
            deleted_by_cascade = false;
            version = env.bulk_version r.version;
          })
      kept r = ground arith
