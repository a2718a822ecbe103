-- ===== src/Api/Controllers/Comments.antt =====
-- comments/comments.controller.ts and comments/mentions/mentions.controller.ts.
use issueflow.Prelude.{ℕ, Text, ◌==◌, ◌&&◌, not, some, map}
use issueflow.Enums.{admin, role_eq}
use issueflow.Store.{Env, Exec, forbidden, pure, raise_if, ◌>>=◌, ◌>>◌}
use issueflow.Auth.{CurrentUser}
use issueflow.Users
use issueflow.Users.{Actor}
use issueflow.Comments.Base.{CreateCommentDto}
use issueflow.Comments.Base
use issueflow.Comments.Edit
use issueflow.Comments.Feed
use issueflow.Api.Responses.{
  Reply, reply, reply_with_version, no_body, comment_body, comments_body, mentions_body,
  comment_from_entity,
}

-- `actor` as the comments service takes it.
abbrev comment_actor : CurrentUser → Actor
comment_actor user = record { id = user.id; role = user.role }

unfoldable pub list : ℕ → Exec Reply
list ticket_id = do
  rows ← Feed.find_for_ticket ticket_id
  pure (reply (comments_body (map comment_from_entity rows)))

-- The refusal comes before the look at the user, so that it tells nothing of its existence.
unfoldable pub list_mentions : ℕ → ℕ → ℕ → CurrentUser → Exec Reply
list_mentions user_id page page_size actor = do
  raise_if (not (role_eq actor.role admin) && not (actor.id == user_id))
      (forbidden "Cannot read another user's mention feed")
  Users.assert_active user_id
  result ← Feed.get_mentions_for_user user_id page page_size
  pure (
      reply (
        mentions_body (record {
          items = map comment_from_entity result.items;
          total = result.total;
          page = result.page;
        })))

module _ (env : Env) where
  unfoldable pub create : ℕ → CreateCommentDto → CurrentUser → Exec Reply
  create ticket_id dto actor = do
    created ← Base.create env ticket_id dto (some actor.id)
    pure (reply_with_version created.version (comment_body (comment_from_entity created)))

  unfoldable pub update : ℕ → ℕ → Text → CurrentUser → ℕ → Exec Reply
  update ticket_id comment_id content actor expected_version = do
    updated ←
        Edit.update env ticket_id comment_id content (some (comment_actor actor)) expected_version
    pure (reply_with_version updated.version (comment_body (comment_from_entity updated)))

  unfoldable pub delete : ℕ → ℕ → CurrentUser → ℕ → Exec Reply
  delete ticket_id comment_id actor expected_version = do
    Edit.delete env ticket_id comment_id (some (comment_actor actor)) expected_version
    pure (reply no_body)
