-- ===== src/Comments/Feed/Sizes.antt =====
-- How many items a page of the mention feed holds.
use issueflow.Prelude.{
  ℕ, zero, suc, ◌-◌, ◌*◌, ◌≤◌, ◌≡◌, refl, sym, ap, ◌∙◌, arith, Bool, true, false, some, List, [],
  ◌∷◌, ltb, length, filter, find_one, any, All, if◌then◌else◌, Bool-cases, inl, inr, ◌==◌, ◌&&◌,
}
use issueflow.Prelude.Rows.{length-map}
use issueflow.Prelude.Order.{order_by, insert_by}
use issueflow.Entities.{Mention}
use issueflow.Store.{Db, ok}
use issueflow.Comments.Edit.{is_live_comment}
use issueflow.Comments.Feed.{
  PaginatedMentions, take, drop, newer, base_query, page_take, page_skip, ordered_comments,
  page_rows, to_response_with_lookup, get_mentions_for_user,
}
use issueflow.Comments.Feed.Pages.{all_items, length-order_by}

abbrev pub smaller : ℕ → ℕ → ℕ
smaller m n = if ltb m n then m else n

module _ {A : Type 0} where
  length-take : (n : ℕ) (xs : List A) → length (take n xs) ≡ smaller n (length xs)
  length-take n [] = ground arith
  length-take zero (x ∷ xs) = ground arith
  length-take (suc n) (x ∷ xs) = ground (arith, length-take n xs)

  length-drop : (n : ℕ) (xs : List A) → length (drop n xs) ≡ length xs - n
  length-drop n [] = ground arith
  length-drop zero (x ∷ xs) = ground arith
  length-drop (suc n) (x ∷ xs) = ground (arith, length-drop n xs)

  find_one-any : (p : A → Bool) (xs : List A) → any p xs ≡ true → (x : A) × (find_one p xs ≡ some x)
  unfolding any find_one
  find_one-any p [] h = cc
  find_one-any p (x ∷ xs) h = elim (Bool-cases (p x)) [
    | inl b ↦ (x, rw b refl)
    | inr b ↦ rw b (find_one-any p xs (rw b at h))
  ]

  module _ (P : A → Type 0) where
    All-take : (n : ℕ) (xs : List A) → All P xs → All P (take n xs)
    All-take n [] a = tt
    All-take zero (x ∷ xs) a = tt
    All-take (suc n) (x ∷ xs) (h, a) = (h, All-take n xs a)

    All-drop : (n : ℕ) (xs : List A) → All P xs → All P (drop n xs)
    All-drop n [] a = tt
    All-drop zero (x ∷ xs) a = a
    All-drop (suc n) (x ∷ xs) (h, a) = All-drop n xs a

    All-insert_by :
        (before : A → A → Bool) (x : A) (ys : List A)
        → P x
        → All P ys
        → All P (insert_by before x ys)
    unfolding insert_by
    All-insert_by before x [] h a = (h, tt)
    All-insert_by before x (y ∷ ys) h (k, a) = elim (Bool-cases (before y x)) [
      | inl b ↦ rw b (k, All-insert_by before x ys h a)
      | inr b ↦ rw b (h, (k, a))
    ]

    All-order_by : (before : A → A → Bool) (xs : List A) → All P xs → All P (order_by before xs)
    unfolding order_by
    All-order_by before [] a = tt
    All-order_by before (x ∷ xs) (h, a) =
        All-insert_by before x (order_by before xs) h (All-order_by before xs a)

module _ (user_id : ℕ) (s : Db) where
  -- The comment of the mention is live.
  abbrev Joins : Mention → Type 0
  Joins m = any (is_live_comment m.comment_id) s.comments ≡ true

  All-filter :
      (ms : List Mention)
      → All Joins
          (filter (λ m. (m.user_id == user_id) && any (is_live_comment m.comment_id) s.comments) ms)
  unfolding filter
  All-filter [] = tt
  All-filter (m ∷ ms) =
      elim (Bool-cases ((m.user_id == user_id) && any (is_live_comment m.comment_id) s.comments)) [
        | inl b ↦ rw b (ground (arith, b), All-filter ms)
        | inr b ↦ rw b (All-filter ms)
      ]

  -- No mention is dropped when the comments are looked up.
  length-ordered_comments :
      (ms : List Mention) → All Joins ms → length (ordered_comments s ms) ≡ length ms
  unfolding ordered_comments
  length-ordered_comments [] a = refl
  length-ordered_comments (m ∷ ms) (h, a) =
      let (c, found) = find_one-any (is_live_comment m.comment_id) s.comments h in
      rw (length, found) (ap suc (length-ordered_comments ms a))

  page_rows-take :
      (page page_size : ℕ)
      → 1 ≤ page
      → 1 ≤ page_size
      → page_rows user_id page page_size s
        ≡ take page_size (drop ((page - 1) * page_size) (order_by (newer s) (base_query user_id s)))
  unfolding page_rows page_skip page_take
  page_rows-take page page_size p q =
      let p0 : (page == 0) ≡ false = ground arith in
      let q0 : (page_size == 0) ≡ false = ground arith in rw (p0, q0) refl

  feed-Joins : All Joins (order_by (newer s) (base_query user_id s))
  unfolding base_query
  feed-Joins = All-order_by Joins (newer s) (base_query user_id s) (All-filter s.mentions)

  length-page :
      (page page_size : ℕ)
      → 1 ≤ page
      → 1 ≤ page_size
      → length (ordered_comments s (page_rows user_id page page_size s))
        ≡ smaller page_size (length (base_query user_id s) - (page - 1) * page_size)
  length-page page page_size p q =
      let rows = order_by (newer s) (base_query user_id s) in
      let k = (page - 1) * page_size in
      let joined = All-take Joins page_size (drop k rows) (All-drop Joins k rows feed-Joins) in
      rw (page_rows-take page page_size p q) (
        length-ordered_comments (take page_size (drop k rows)) joined
        ∙ length-take page_size (drop k rows)
        ∙ ap (smaller page_size) (
            length-drop k rows
            ∙ ap (λ n. n - k) (length-order_by (newer s) (base_query user_id s))))

  -- The feed is there for every user and page. From page 1 and page size 1 on, a page holds as many
  -- items as its size, or as many as `total` leaves behind the pages before it where these are fewer;
  -- `total` is the number of items of the whole feed. Reading it changes nothing.
  pub get_mentions_for_user-length :
      (page page_size : ℕ)
      → 1 ≤ page
      → 1 ≤ page_size
      → (r : PaginatedMentions) × (get_mentions_for_user user_id page page_size s ≡ (ok r, s))
        × (length r.items ≡ smaller page_size (r.total - (page - 1) * page_size))
        × (r.total ≡ length (all_items user_id page_size s))
  unfolding get_mentions_for_user
  get_mentions_for_user-length page page_size p q =
      let rows = order_by (newer s) (base_query user_id s) in
      let show = to_response_with_lookup s in
      (
        _,
        refl,
        length-map show (ordered_comments s (page_rows user_id page page_size s))
            ∙ length-page page page_size p q,
        sym (
            length-map show (ordered_comments s rows)
            ∙ length-ordered_comments rows feed-Joins
            ∙ length-order_by (newer s) (base_query user_id s)),
      )
