-- ===== src/Comments/Edit.antt =====
-- comments/comments.service.ts: `update` and `delete`.
pub mod Laws
pub mod Mentioned
use issueflow.Prelude.{
  ℕ, Text, ◌==◌, ◌&&◌, ◌||◌, not, Bool, true, Option, none, some, List, [], ◌∷◌, map, filter,
  find_one, update_where, contains, is_empty, if◌then◌else◌,
}
use issueflow.Enums.{admin, role_eq, comment_entity, update_action, delete_action}
use issueflow.Entities.{Comment, Mention, is_null}
use issueflow.Store.{
  Env, Exec, not_found, forbidden, pure, gets, or_raise, raise_if, modify, transaction, ◌>>=◌, ◌>>◌,
}
use issueflow.Audit.{actor_of, input, record_entry}
use issueflow.Users.{Actor, actor_id}
use issueflow.Mentions
use issueflow.Tickets.Base.{assert_version_matches}
use issueflow.Comments.Base.{CommentResponse, to_response, insert_mentions}

abbrev pub is_live_comment : ℕ → Comment → Bool
is_live_comment id c = (c.id == id) && is_null c.deleted_at

-- A null actor is a trusted internal caller.
unfoldable pub may_edit : Option Actor → Comment → Bool
may_edit none c = true
may_edit (some a) c = (c.author_id == a.id) || role_eq a.role admin

-- The checks that `update` and `delete` share.
unfoldable pub assert_editable : ℕ → ℕ → Option Actor → ℕ → Comment → Exec Unit
unfolding may_edit assert_version_matches
assert_editable route_ticket_id comment_id actor expected_version c = do
  raise_if (not (c.ticket_id == route_ticket_id)) (not_found comment_entity comment_id)
  raise_if (not (may_edit actor c)) (forbidden "Not the author of this comment")
  assert_version_matches c.version expected_version "Comment"

unfoldable pub find_live : ℕ → Exec Comment
find_live comment_id = do
  found ← gets (λ s. find_one (is_live_comment comment_id) s.comments)
  or_raise found (not_found comment_entity comment_id)

-- `new Set(ids)`, in the order of first insertion.
unfoldable pub distinct_from : List ℕ → List ℕ → List ℕ
distinct_from seen [] = []
distinct_from seen (x ∷ xs) =
    let rest = distinct_from (x ∷ seen) xs in if contains seen x then rest else x ∷ rest

abbrev pub mentions_of : ℕ → List Mention → List Mention
mentions_of comment_id = filter (λ m. m.comment_id == comment_id)

abbrev user_ids : List Mention → List ℕ
user_ids = map (λ m. m.user_id)

-- The mentions of the comment that are no longer in `new_ids`.
unfoldable pub to_delete : ℕ → List ℕ → List Mention → List Mention
to_delete comment_id new_ids rows =
    filter (λ m. not (contains new_ids m.user_id)) (mentions_of comment_id rows)

-- The users in `new_ids` that the comment does not mention yet.
unfoldable pub to_add : ℕ → List ℕ → List Mention → List ℕ
unfolding distinct_from
to_add comment_id new_ids rows =
    filter (λ u. not (contains (user_ids (mentions_of comment_id rows)) u))
      (distinct_from [] new_ids)

module _ (env : Env) where
  -- The two statements that bring the rows of `mentions` into line with `new_ids`.
  unfoldable pub sync_mentions : ℕ → List ℕ → Exec Unit
  unfolding to_delete to_add
  sync_mentions comment_id new_ids = do
    gone ← gets (λ s. to_delete comment_id new_ids s.mentions)
    fresh ← gets (λ s. to_add comment_id new_ids s.mentions)
    if is_empty gone
        then pure tt
        else modify λ s. record s {
          mentions = filter (λ m. not (contains (map (λ r. r.id) gone) m.id)) s.mentions;
        }
    if is_empty fresh then pure tt else insert_mentions env comment_id fresh

  -- `save` of the comment with its new content.
  unfoldable pub saved_comment : Text → Comment → Comment
  saved_comment content c =
      let edited = record c { content = content } in
      record edited { version = env.comment_version c edited }

  unfoldable pub update_in_transaction : ℕ → ℕ → Text → Option Actor → ℕ → Exec CommentResponse
  unfolding find_live assert_editable saved_comment sync_mentions to_response
  update_in_transaction route_ticket_id comment_id content actor expected_version = do
    c ← find_live comment_id
    assert_editable route_ticket_id comment_id actor expected_version c
    modify λ s. record s {
      comments = update_where (λ r. r.id == c.id) (λ r. saved_comment content c) s.comments;
    }
    users ← Mentions.resolve env content
    sync_mentions comment_id (map (λ u. u.id) users)
    record_entry env
        (input update_action comment_entity comment_id (actor_of (actor_id actor)) none)
    pure (to_response (saved_comment content c) users)

  unfoldable pub update : ℕ → ℕ → Text → Option Actor → ℕ → Exec CommentResponse
  unfolding update_in_transaction
  update route_ticket_id comment_id content actor expected_version =
      transaction (λ s s'. record s' { comments = s.comments; mentions = s.mentions })
        (update_in_transaction route_ticket_id comment_id content actor expected_version)

  unfoldable pub delete : ℕ → ℕ → Option Actor → ℕ → Exec Unit
  unfolding find_live assert_editable
  delete route_ticket_id comment_id actor expected_version = do
    c ← find_live comment_id
    assert_editable route_ticket_id comment_id actor expected_version c
    modify λ s. record s {
      comments =
          update_where (λ r. r.id == comment_id)
            (λ r. record r { deleted_at = some env.now; version = env.bulk_version r.version })
            s.comments;
      mentions = filter (λ m. not (m.comment_id == comment_id)) s.mentions;
    }
    record_entry env
        (input delete_action comment_entity comment_id (actor_of (actor_id actor)) none)
