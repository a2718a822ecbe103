-- ===== src/Comments/Feed.antt =====
-- comments/comments.service.ts: `findForTicket` and `getMentionsForUser`.
pub mod Pages
pub mod Sizes
use issueflow.Prelude.{
  ℕ, zero, suc, ◌-◌, ◌*◌, ltb, ◌==◌, ◌&&◌, ◌||◌, Bool, Option, none, some, List, [], ◌∷◌, map,
  filter, find_one, any, contains, is_empty, length, if◌then◌else◌,
}
use issueflow.Prelude.Order.{order_by}
use issueflow.Entities.{Comment, Mention, Date, is_null}
use issueflow.Store.{Db, Exec, gets, ◌>>◌}
use issueflow.Tickets.Base
use issueflow.Comments.Base.{CommentResponse, to_response}
use issueflow.Comments.Edit.{is_live_comment, mentions_of}

abbrev pub take : {A : Type 0} → ℕ → List A → List A
take n [] = []
take zero (x ∷ xs) = []
take (suc n) (x ∷ xs) = x ∷ take n xs

abbrev pub drop : {A : Type 0} → ℕ → List A → List A
drop n [] = []
drop zero (x ∷ xs) = x ∷ xs
drop (suc n) (x ∷ xs) = drop n xs

-- `toResponseWithLookup`: the users that the comment mentions and that are not deleted.
unfoldable pub to_response_with_lookup : Db → Comment → CommentResponse
unfolding to_response
to_response_with_lookup s c =
    let ids = map (λ m. m.user_id) (mentions_of c.id s.mentions) in
    if is_empty ids
    then to_response c []
    else to_response c (filter (λ u. contains ids u.id && is_null u.deleted_at) s.users)

unfoldable pub find_for_ticket : ℕ → Exec (List CommentResponse)
unfolding to_response_with_lookup
find_for_ticket ticket_id = do
  Base.assert_active ticket_id
  gets λ s. map (to_response_with_lookup s) (
      order_by (λ a b. ltb a.created_at b.created_at)
        (filter (λ c. (c.ticket_id == ticket_id) && is_null c.deleted_at) s.comments))

pub record PaginatedMentions : Type 0 where
  pub items : List CommentResponse
  pub total : ℕ
  pub page : ℕ

abbrev created_of : Option Comment → Date
created_of none = 0
created_of (some c) = c.created_at

-- `c.createdAt` of the joined comment.
unfoldable pub joined_created_at : Db → Mention → Date
joined_created_at s m = created_of (find_one (is_live_comment m.comment_id) s.comments)

-- `ORDER BY c.createdAt DESC, m.id DESC`.
unfoldable pub newer : Db → Mention → Mention → Bool
unfolding joined_created_at
newer s a b =
    ltb (joined_created_at s b) (joined_created_at s a)
    || (joined_created_at s a == joined_created_at s b) && ltb b.id a.id

-- `baseQb`: the mentions of the user whose comment is not deleted.
unfoldable pub base_query : ℕ → Db → List Mention
base_query user_id s =
    filter (λ m. (m.user_id == user_id) && any (is_live_comment m.comment_id) s.comments) s.mentions

unfoldable pub page_take : ℕ → ℕ
page_take page_size = if page_size == 0 then 1 else page_size

unfoldable pub page_skip : ℕ → ℕ → ℕ
unfolding page_take
page_skip page page_size = ((if page == 0 then 1 else page) - 1) * page_take page_size

-- The comments of the page's mentions, looked up through `byId`.
unfoldable pub ordered_comments : Db → List Mention → List Comment
ordered_comments s [] = []
ordered_comments s (m ∷ ms) =
    let rest = ordered_comments s ms in
    elim (find_one (is_live_comment m.comment_id) s.comments) [ none ↦ rest | some c ↦ c ∷ rest ]

unfoldable pub page_rows : ℕ → ℕ → ℕ → Db → List Mention
unfolding newer base_query page_skip
page_rows user_id page page_size s =
    take (page_take page_size)
      (drop (page_skip page page_size) (order_by (newer s) (base_query user_id s)))

unfoldable pub get_mentions_for_user : ℕ → ℕ → ℕ → Exec PaginatedMentions
unfolding page_rows ordered_comments to_response_with_lookup
get_mentions_for_user user_id page page_size = gets λ s. record {
  items = map (to_response_with_lookup s) (ordered_comments s (page_rows user_id page page_size s));
  total = length (base_query user_id s);
  page = page;
}
