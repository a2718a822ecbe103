-- ===== src/Tests/Paging.antt =====
-- The mention feed of a user whom three comments mention, two to a page.
use issueflow.Prelude.{
  ℕ, ◌≤◌, ◌*◌, ◌-◌, ◌≡◌, refl, arith, false, none, [], ◌∷◌, length, filter, any, map,
}
use issueflow.Entities.{Comment, Mention}
use issueflow.Store.{Db, ok}
use issueflow.Comments.Feed.{
  PaginatedMentions, get_mentions_for_user, to_response_with_lookup, base_query, page_take,
  page_rows, ordered_comments,
}
use issueflow.Comments.Feed.Pages.{first_pages, all_items, first_pages_lem}
use issueflow.Comments.Feed.Sizes.{smaller, get_mentions_for_user-length}
use issueflow.Tests.Samples.{db}

abbrev comment_at : ℕ → Comment
comment_at n = record {
  id = n;
  ticket_id = 1;
  author_id = 1;
  content = [];
  version = 1;
  deleted_by_cascade = false;
  created_at = n;
  deleted_at = none;
}

abbrev of_bob : ℕ → Mention
of_bob n = record { id = n; comment_id = n; user_id = 2 }

abbrev chatty : Db
chatty = record db {
  comments = comment_at 1 ∷ comment_at 2 ∷ comment_at 3 ∷ [];
  mentions = of_bob 1 ∷ of_bob 2 ∷ of_bob 3 ∷ [];
}

abbrev page : ℕ → PaginatedMentions
page n = record {
  items = map (to_response_with_lookup chatty) (ordered_comments chatty (page_rows 2 n 2 chatty));
  total = length (base_query 2 chatty);
  page = n;
}

shows : (n : ℕ) → get_mentions_for_user 2 n 2 chatty ≡ (ok (page n), chatty)
unfolding get_mentions_for_user
shows n = refl

three : length (base_query 2 chatty) ≤ 2 * page_take 2
unfolding base_query filter any page_take
three = omega arith

first_pages_example : first_pages 2 2 chatty 2 ≡ all_items 2 2 chatty
first_pages_example = first_pages_lem 2 2 chatty 2 (page 1) (shows 1) three

get_mentions_for_user_example :
    (r : PaginatedMentions) × (get_mentions_for_user 2 2 2 chatty ≡ (ok r, chatty))
    × (length r.items ≡ smaller 2 (r.total - 1 * 2))
    × (r.total ≡ length (all_items 2 2 chatty))
get_mentions_for_user_example =
    get_mentions_for_user-length 2 chatty 2 2 (omega arith) (omega arith)
