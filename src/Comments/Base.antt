-- ===== src/Comments/Base.antt =====
-- comments/comments.service.ts: the responses, the rows of `mentions` and `create`.
use issueflow.Prelude.{
  ℕ, Text, ◌==◌, ◌&&◌, false, Option, none, some, List, [], ◌∷◌, ◌++◌, map, any, contains, is_empty,
  if◌then◌else◌,
}
use issueflow.Enums.{comment_entity, create_action}
use issueflow.Entities.{User, Comment, Mention, mentioned}
use issueflow.Store.{Env, Exec, unexpected, pure, raise, gets, modify, transaction, ◌>>=◌, ◌>>◌, ok}
use issueflow.Audit.{actor_of, input, record_entry}
use issueflow.Users
use issueflow.Mentions
use issueflow.Tickets.Base

pub record CreateCommentDto : Type 0 where
  pub author_id : ℕ
  pub content : Text

pub record MentionedUser : Type 0 where
  pub id : ℕ
  pub username : Text
  pub full_name : Text

pub record CommentResponse : Type 0 where
  pub id : ℕ
  pub ticket_id : ℕ
  pub author_id : ℕ
  pub content : Text
  pub mentioned_users : List MentionedUser
  pub version : ℕ

unfoldable pub mentioned_user : User → MentionedUser
mentioned_user u = record { id = u.id; username = u.username; full_name = u.full_name }

unfoldable pub to_response : Comment → List User → CommentResponse
unfolding mentioned_user
to_response c users = record {
  id = c.id;
  ticket_id = c.ticket_id;
  author_id = c.author_id;
  content = c.content;
  mentioned_users = map mentioned_user users;
  version = c.version;
}

module _ (env : Env) where
  -- The new rows of one `insert` into `mentions`, behind the rows that are there.
  unfoldable pub add_mentions : ℕ → List ℕ → List Mention → List Mention
  add_mentions comment_id [] rows = rows
  add_mentions comment_id (u ∷ us) rows = add_mentions comment_id us (
      rows
      ++ record { id = env.next_id (map (λ m. m.id) rows); comment_id = comment_id; user_id = u }
        ∷ [])

  -- The insert, which the unique index UQ_mention_comment_user may refuse.
  unfoldable pub insert_mentions : ℕ → List ℕ → Exec Unit
  unfolding add_mentions
  insert_mentions comment_id user_ids s =
      if any (λ m. (m.comment_id == comment_id) && contains user_ids m.user_id) s.mentions
      then raise unexpected s
      else (ok tt, record s { mentions = add_mentions comment_id user_ids s.mentions })

  unfoldable pub new_comment : ℕ → CreateCommentDto → List Comment → Comment
  new_comment ticket_id dto rows = record {
    id = env.next_id (map (λ c. c.id) rows);
    ticket_id = ticket_id;
    author_id = dto.author_id;
    content = dto.content;
    version = 1;
    deleted_by_cascade = false;
    created_at = env.now;
    deleted_at = none;
  }

  unfoldable pub insert_comment : ℕ → CreateCommentDto → List User → Option ℕ → Exec Comment
  unfolding new_comment insert_mentions
  insert_comment ticket_id dto users actor_user_id = do
    inserted ← gets (λ s. new_comment ticket_id dto s.comments)
    modify λ s. record s { comments = s.comments ++ inserted ∷ [] }
    if is_empty users then pure tt else insert_mentions inserted.id (map (λ u. u.id) users)
    record_entry env (
        input create_action comment_entity inserted.id (actor_of actor_user_id)
          (some (mentioned ticket_id (map (λ u. u.id) users))))
    pure inserted

  unfoldable pub create : ℕ → CreateCommentDto → Option ℕ → Exec CommentResponse
  unfolding insert_comment to_response
  create ticket_id dto actor_user_id = do
    Base.assert_active ticket_id
    Users.assert_active dto.author_id
    users ← Mentions.resolve env dto.content
    saved ←
        transaction (λ s s'. record s' { comments = s.comments; mentions = s.mentions })
          (insert_comment ticket_id dto users actor_user_id)
    pure (to_response saved users)
