-- ===== src/Comments/Cascade.antt =====
-- comments/comments.service.ts: the cascades from tickets to their comments. Mentions have no
-- `deletedAt`: they are deleted with the comment, and inserted again with it.
use issueflow.Prelude.{
  ℕ, ◌&&◌, ◌||◌, not, true, false, Option, none, some, List, map, filter, update_where, contains,
  is_empty, if◌then◌else◌,
}
use issueflow.Enums.{AuditAction, comment_entity, delete_action, restore_action}
use issueflow.Entities.{Comment, is_null, cascade_tickets}
use issueflow.Store.{gets, Env, Exec, pure, modify, for_each, ◌>>=◌, ◌>>◌}
use issueflow.Audit.{actor_of, input, record_entry}
use issueflow.Mentions
use issueflow.Tickets.Base.{CascadeHandler}
use issueflow.Comments.Base.{insert_mentions}

module _ (env : Env) where
  unfoldable pub mark_deleted : List ℕ → List Comment → List Comment
  mark_deleted ticket_ids =
      update_where (λ c. contains ticket_ids c.ticket_id && is_null c.deleted_at)
        λ c. record c {
          deleted_at = some env.now;
          deleted_by_cascade = true;
          version = env.bulk_version c.version;
        }

  unfoldable pub mark_restored : List ℕ → List Comment → List Comment
  mark_restored ticket_ids =
      update_where (λ c. contains ticket_ids c.ticket_id && c.deleted_by_cascade)
        λ c. record c {
          deleted_at = none;
          deleted_by_cascade = false;
          version = env.bulk_version c.version;
        }

  record_each : AuditAction → Option ℕ → List ℕ → List Comment → Exec Unit
  record_each action actor_user_id ticket_ids = for_each λ r. record_entry env (
      input action comment_entity r.id (actor_of actor_user_id) (some (cascade_tickets ticket_ids)))

  unfoldable pub cascade_soft_delete_comments : CascadeHandler
  unfolding record_each
  cascade_soft_delete_comments ticket_ids actor_user_id = do
    rows ←
        gets (λ s. filter (λ c. contains ticket_ids c.ticket_id && is_null c.deleted_at) s.comments)
    if is_empty ticket_ids || is_empty rows then pure tt else do
      modify λ s'. record s' {
        comments = mark_deleted ticket_ids s'.comments;
        mentions = filter (λ m. not (contains (map (λ r. r.id) rows) m.comment_id)) s'.mentions;
      }
      record_each delete_action actor_user_id ticket_ids rows

  -- The mentions of a restored comment, resolved again.
  unfoldable pub mention_again : Comment → Exec Unit
  mention_again r = do
    users ← Mentions.resolve env r.content
    if is_empty users then pure tt else insert_mentions env r.id (map (λ u. u.id) users)

  unfoldable pub cascade_restore_comments : CascadeHandler
  unfolding record_each
  cascade_restore_comments ticket_ids actor_user_id = do
    rows ←
        gets (λ s. filter (λ c. contains ticket_ids c.ticket_id && c.deleted_by_cascade) s.comments)
    if is_empty ticket_ids || is_empty rows then pure tt else do
      modify λ s'. record s' { comments = mark_restored ticket_ids s'.comments }
      for_each mention_again rows
      record_each restore_action actor_user_id ticket_ids rows
