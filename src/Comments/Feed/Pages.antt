-- ===== src/Comments/Feed/Pages.antt =====
-- The pages of the mention feed.
use issueflow.Prelude.{
  ℕ, zero, suc, ◌+◌, ◌*◌, ◌-◌, ◌≤◌, ◌≡◌, refl, ap, ◌∙◌, arith, Bool, false, Option, none, some,
  List, [], ◌∷◌, ◌++◌, map, length, find_one, Bool-cases, inl, inr, ◌==◌,
}
use native.Mathlib.Nat.{suc-mul}
use mathlib.Core.Path.{ap₂}
use issueflow.Prelude.Order.{order_by, insert_by}
use issueflow.Entities.{Comment, Mention}
use issueflow.Store.{Db, Result, ok, err}
use issueflow.Comments.Base.{CommentResponse}
use issueflow.Comments.Edit.{is_live_comment}
use issueflow.Comments.Feed.{
  PaginatedMentions, take, drop, to_response_with_lookup, newer, base_query, page_take, page_skip,
  ordered_comments, page_rows, get_mentions_for_user,
}

module _ {A : Type 0} where
  take_none : (xs : List A) → take 0 xs ≡ []
  take_none [] = refl
  take_none (x ∷ xs) = refl

  drop_none : (xs : List A) → drop 0 xs ≡ xs
  drop_none [] = refl
  drop_none (x ∷ xs) = refl

  -- The first rows, and the next ones behind them.
  take_add : (n m : ℕ) (xs : List A) → take (n + m) xs ≡ take n xs ++ take m (drop n xs)
  take_add n m [] = refl
  take_add zero m (x ∷ xs) = let e : 0 + m ≡ m = omega arith in rw e refl
  take_add (suc n) m (x ∷ xs) =
      let e : suc n + m ≡ suc (n + m) = omega arith in rw e (ap (λ r. x ∷ r) (take_add n m xs))

  take_all : (n : ℕ) (xs : List A) → length xs ≤ n → take n xs ≡ xs
  take_all n [] h = refl
  take_all zero (x ∷ xs) h = absurd (omega (arith, h))
  take_all (suc n) (x ∷ xs) h = ap (λ r. x ∷ r) (take_all n xs (omega (arith, h)))

  length-insert_by :
      (before : A → A → Bool) (x : A) (ys : List A)
      → length (insert_by before x ys) ≡ suc (length ys)
  unfolding insert_by
  length-insert_by before x [] = refl
  length-insert_by before x (y ∷ ys) = elim (Bool-cases (before y x)) [
    | inl b ↦ rw b (ap suc (length-insert_by before x ys))
    | inr b ↦ rw b refl
  ]

  pub length-order_by :
      (before : A → A → Bool) (xs : List A) → length (order_by before xs) ≡ length xs
  unfolding order_by
  length-order_by before [] = refl
  length-order_by before (x ∷ xs) =
      length-insert_by before x (order_by before xs) ∙ ap suc (length-order_by before xs)

map-append : {A B : Type 0} (f : A → B) (xs ys : List A) → map f (xs ++ ys) ≡ map f xs ++ map f ys
map-append f [] ys = refl
map-append f (x ∷ xs) ys = ap (λ r. f x ∷ r) (map-append f xs ys)

ordered_comments-append :
    (s : Db) (xs ys : List Mention)
    → ordered_comments s (xs ++ ys) ≡ ordered_comments s xs ++ ordered_comments s ys
unfolding ordered_comments
ordered_comments-append s [] ys = refl
ordered_comments-append s (m ∷ ms) ys =
    let rest = ordered_comments-append s ms ys in
    go (find_one (is_live_comment m.comment_id) s.comments) rest
  where
    go :
        (o : Option Comment)
        → ordered_comments s (ms ++ ys) ≡ ordered_comments s ms ++ ordered_comments s ys
        → (elim o [
          | none ↦ ordered_comments s (ms ++ ys)
          | some c ↦ c ∷ ordered_comments s (ms ++ ys)
        ])
          ≡ (elim o [ none ↦ ordered_comments s ms | some c ↦ c ∷ ordered_comments s ms ])
            ++ ordered_comments s ys
    go none e = e
    go (some c) e = ap (λ r. c ∷ r) e

abbrev items_in : Result PaginatedMentions → List CommentResponse
items_in (ok r) = r.items
items_in (err e) = []

module _ (user_id page_size : ℕ) (s : Db) where
  -- The items of a page, as the service returns them.
  abbrev pub page_items : ℕ → List CommentResponse
  page_items page = items_in (get_mentions_for_user user_id page page_size s).0

  -- The first pages, one behind the other.
  unfoldable pub first_pages : ℕ → List CommentResponse
  first_pages zero = []
  first_pages (suc k) = first_pages k ++ page_items (suc k)

  -- The whole feed.
  abbrev pub all_items : List CommentResponse
  all_items =
      map (to_response_with_lookup s)
        (ordered_comments s (order_by (newer s) (base_query user_id s)))

  shown : List Mention → List CommentResponse
  shown ms = map (to_response_with_lookup s) (ordered_comments s ms)

  shown-append : (xs ys : List Mention) → shown (xs ++ ys) ≡ shown xs ++ shown ys
  unfolding shown
  shown-append xs ys =
      ap (map (to_response_with_lookup s)) (ordered_comments-append s xs ys)
      ∙ map-append (to_response_with_lookup s) (ordered_comments s xs) (ordered_comments s ys)

  page_skip-suc : (k : ℕ) → page_skip (suc k) page_size ≡ k * page_take page_size
  unfolding page_skip page_take
  page_skip-suc k =
      let here : (suc k == 0) ≡ false = ground arith in
      let less : suc k - 1 ≡ k = omega arith in rw here (rw less refl)

  page_rows-suc :
      (k : ℕ)
      → page_rows user_id (suc k) page_size s
        ≡ take
            (page_take page_size)
            (drop (k * page_take page_size) (order_by (newer s) (base_query user_id s)))
  unfolding page_rows
  page_rows-suc k =
      ap (λ n. take (page_take page_size) (drop n (order_by (newer s) (base_query user_id s))))
        (page_skip-suc k)

  first_pages-take :
      (k : ℕ)
      → first_pages k
        ≡ shown (take (k * page_take page_size) (order_by (newer s) (base_query user_id s)))
  unfolding first_pages get_mentions_for_user
  first_pages-take zero =
      let rows = order_by (newer s) (base_query user_id s) in
      let e : 0 * page_take page_size ≡ 0 = omega arith in
      rw e (rw (take_none rows) (unfold shown ordered_comments in refl))
  first_pages-take (suc k) =
      let p = page_take page_size in
      let rows = order_by (newer s) (base_query user_id s) in
      let whole : suc k * p ≡ k * p + p = suc-mul k p in
      rw whole (
        rw (take_add (k * p) p rows) (
          rw (shown-append (take (k * p) rows) (take p (drop (k * p) rows))) (
            ap₂ (λ a b. a ++ b) (first_pages-take k) (unfold shown in ap shown (page_rows-suc k)))))

  -- The first `k` pages, one behind the other, are the whole feed in its order once they have room for as
  -- many items as `total` says: nothing stands on two pages and nothing is left out between two.
  pub first_pages_lem :
      (k : ℕ) (r : PaginatedMentions)
      → get_mentions_for_user user_id 1 page_size s ≡ (ok r, s)
      → r.total ≤ k * page_take page_size
      → first_pages k ≡ all_items
  unfolding get_mentions_for_user
  first_pages_lem k r h room =
      let rows = order_by (newer s) (base_query user_id s) in
      let counted : length (base_query user_id s) ≡ r.total = ground arith in
      let enough : length rows ≤ k * page_take page_size =
        rw (length-order_by (newer s) (base_query user_id s)) (rw counted room) in
      first_pages-take k
      ∙ (unfold shown in ap shown (take_all (k * page_take page_size) rows enough))
