-- ===== src/Comments/Edit/Laws.antt =====
-- Who may change a comment, and what a change leaves behind.
use issueflow.Prelude.{
  ℕ, Text, ◌≡◌, refl, arith, true, Option, none, some, find_one, update_where, ◌==◌,
}
use issueflow.Entities.{Comment}
use issueflow.Store.{Db, Env, Error, ok, err, ◌>>=◌}
use issueflow.Audit.{record_entry, insert_row}
use issueflow.Users
use issueflow.Users.{Actor}
use issueflow.Mentions
use issueflow.Tickets.Base.{assert_version_matches}
use issueflow.Comments.Base.{CommentResponse, insert_mentions}
use issueflow.Comments.Edit.{
  is_live_comment, may_edit, assert_editable, find_live, saved_comment, sync_mentions,
  update_in_transaction, update,
}

-- The comment that a call was let through for.
pub record Permitted (route_ticket_id comment_id : ℕ) (actor : Option Actor) (version : ℕ) (s : Db)
    (c : Comment) : Type 0 where
  pub found : find_one (is_live_comment comment_id) s.comments ≡ some c
  pub route : c.ticket_id ≡ route_ticket_id
  pub allowed : may_edit actor c ≡ true
  pub current : c.version ≡ version

module _ (env : Env) (route_ticket_id comment_id : ℕ) (actor : Option Actor) (version : ℕ)
    (s s' : Db) where
  -- A comment that `update` has changed was live, on the ticket of the route and at the version
  -- expected, and the caller its author, an admin or trusted; only its row was replaced.
  pub update-Permitted :
      (content : Text) (res : CommentResponse)
      → update env route_ticket_id comment_id content actor version s ≡ (ok res, s')
      → (c : Comment) × Permitted route_ticket_id comment_id actor version s c
        × (s'.comments
            ≡ update_where (λ r. r.id == c.id) (λ r. saved_comment env content c) s.comments)
  unfolding update update_in_transaction find_live assert_editable assert_version_matches
      sync_mentions insert_mentions Mentions.resolve Users.find_by_usernames_case_insensitive
      record_entry insert_row ◌>>=◌
  update-Permitted content res h = go (find_one (is_live_comment comment_id) s.comments) refl
    where
      go :
          (o : Option Comment)
          → find_one (is_live_comment comment_id) s.comments ≡ o
          → (c : Comment) × Permitted route_ticket_id comment_id actor version s c
            × (s'.comments
                ≡ update_where (λ r. r.id == c.id) (λ r. saved_comment env content c) s.comments)
      go none e = ground arith
      go (some c) e = (c, ground arith, ground arith)

  -- A call of `update` that fails leaves the database as it was.
  pub comments_update-error :
      (content : Text) (e : Error)
      → update env route_ticket_id comment_id content actor version s ≡ (err e, s')
      → s' ≡ s
  unfolding update update_in_transaction find_live assert_editable assert_version_matches
      sync_mentions insert_mentions Mentions.resolve Users.find_by_usernames_case_insensitive
      record_entry insert_row ◌>>=◌
  comments_update-error content e h = ground arith
