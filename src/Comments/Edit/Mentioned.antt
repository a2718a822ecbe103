-- ===== src/Comments/Edit/Mentioned.antt =====
-- The mentions of a comment after an update.
use mathlib.Core.List.{Memᴰ}
use issueflow.Prelude.{
  ℕ, ◌≡◌, refl, sym, ap, ◌∙◌, arith, true, false, Bool, List, [], ◌∷◌, ◌++◌, map, filter, contains,
  is_empty, any, ◌==◌, ==_iff, ==_refl, ◌&&◌, ◌||◌, not, if◌then◌else◌, Bool-cases, inl, inr,
}
use issueflow.Entities.{Mention}
use issueflow.Store.{Result, Db, Env, pure, modify, ok, err, ◌>>=◌}
use issueflow.Comments.Base.{add_mentions, insert_mentions}
use issueflow.Comments.Edit.{mentions_of, to_delete, to_add, distinct_from, sync_mentions}

-- No id stands twice.
abbrev pub UniqueMentions : List Mention → Type 0
UniqueMentions [] = Unit
UniqueMentions (m ∷ ms) = (contains (map (λ r. r.id) ms) m.id ≡ false) × UniqueMentions ms

-- The users that are mentioned in a comment.
abbrev pub mentioned_in : ℕ → List Mention → List ℕ
mentioned_in comment_id rows = map (λ m. m.user_id) (mentions_of comment_id rows)

contains-distinct_from :
    (seen xs : List ℕ) (u : ℕ)
    → contains (distinct_from seen xs) u ≡ contains xs u && not (contains seen u)
unfolding distinct_from contains
contains-distinct_from seen [] u = refl
contains-distinct_from seen (x ∷ xs) u =
    ground (arith, contains-distinct_from (x ∷ seen) xs u, ==_iff x u)

contains-append : (xs ys : List ℕ) (u : ℕ) → contains (xs ++ ys) u ≡ contains xs u || contains ys u
unfolding contains
contains-append [] ys u = refl
contains-append (x ∷ xs) ys u = ground (arith, contains-append xs ys u)

contains-filter_test :
    (p : ℕ → Bool) (xs : List ℕ) (u : ℕ) → contains (filter p xs) u ≡ contains xs u && p u
unfolding contains filter
contains-filter_test p [] u = refl
contains-filter_test p (x ∷ xs) u = ground (arith, contains-filter_test p xs u, ==_iff x u)

module _ (comment_id : ℕ) (new_ids : List ℕ) where
  abbrev goes : Mention → Bool
  goes m = (m.comment_id == comment_id) && not (contains new_ids m.user_id)

  abbrev gone : List Mention → List ℕ
  gone rows = map (λ r. r.id) (to_delete comment_id new_ids rows)

  gone-absent :
      (rows : List Mention) (n : ℕ)
      → contains (map (λ r. r.id) rows) n ≡ false
      → contains (gone rows) n ≡ false
  unfolding contains filter to_delete
  gone-absent [] n h = refl
  gone-absent (r ∷ rows) n h = ground (arith, gone-absent rows n)

  present :
      (rows : List Mention) (r : Mention)
      → Memᴰ r rows
      → contains (map (λ m. m.id) rows) r.id ≡ true
  unfolding contains
  present [] r m = elim m [ ]
  present (x ∷ xs) r (Memᴰ.head e) = rw e (ground (arith, ==_refl x.id))
  present (x ∷ xs) r (Memᴰ.tail m) = ground (arith, present xs r m)

  gone-goes :
      (rows : List Mention) (r : Mention)
      → UniqueMentions rows
      → Memᴰ r rows
      → contains (gone rows) r.id ≡ goes r
  unfolding contains filter to_delete
  gone-goes [] r u m = elim m [ ]
  gone-goes (x ∷ xs) r u (Memᴰ.head e) =
      rw e (ground (arith, ==_refl x.id, gone-absent xs x.id u.0))
  gone-goes (x ∷ xs) r u (Memᴰ.tail m) =
      ground (arith, gone-goes xs r u.1 m, present xs r m, ==_iff x.id r.id)

  filter-agree :
      (p q : Mention → Bool) (rows : List Mention)
      → ((r : Mention) → Memᴰ r rows → p r ≡ q r)
      → filter p rows ≡ filter q rows
  unfolding filter
  filter-agree p q [] h = refl
  filter-agree p q (r ∷ rows) h =
      ground (arith, h r (Memᴰ.head refl), filter-agree p q rows (λ x m. h x (Memᴰ.tail m)))

  -- The users still mentioned after the deletion.
  mentioned-stay :
      (rows : List Mention) (u : ℕ)
      → contains (mentioned_in comment_id (filter (λ m. not (goes m)) rows)) u
        ≡ contains (mentioned_in comment_id rows) u && contains new_ids u
  unfolding filter contains
  mentioned-stay [] u = refl
  mentioned-stay (r ∷ rows) u = ground (arith, mentioned-stay rows u, ==_iff r.user_id u)

  mentioned-append_one :
      (rows : List Mention) (m : Mention) (u : ℕ)
      → contains (mentioned_in comment_id (rows ++ m ∷ [])) u
        ≡ contains (mentioned_in comment_id rows) u
          || ((m.comment_id == comment_id) && (m.user_id == u))
  unfolding filter contains
  mentioned-append_one [] m u = ground arith
  mentioned-append_one (r ∷ rows) m u = ground (arith, mentioned-append_one rows m u)

  mentioned-add :
      (env : Env) (us : List ℕ) (rows : List Mention) (u : ℕ)
      → contains (mentioned_in comment_id (add_mentions env comment_id us rows)) u
        ≡ contains (mentioned_in comment_id rows) u || contains us u
  unfolding add_mentions contains
  mentioned-add env [] rows u = ground arith
  mentioned-add env (v ∷ us) rows u =
      let m : Mention = record {
        id = env.next_id (map (λ r. r.id) rows);
        comment_id = comment_id;
        user_id = v;
      } in
      ground (
        arith,
        mentioned-add env us (rows ++ m ∷ []) u,
        mentioned-append_one rows m u,
        ==_refl comment_id,
      )

  no_clash :
      (us : List ℕ) (rows : List Mention)
      → ((v : ℕ) → contains us v ≡ true → contains (mentioned_in comment_id rows) v ≡ false)
      → any (λ m. (m.comment_id == comment_id) && contains us m.user_id) rows ≡ false
  unfolding any filter contains
  no_clash us [] h = refl
  no_clash us (r ∷ rows) h =
      ground
        (arith, h r.user_id, ==_refl r.user_id, no_clash us rows (λ v k. ground (arith, h v k)))

  nothing_gone :
      (gs rows : List Mention)
      → is_empty gs ≡ true
      → filter (λ m. not (contains (map (λ r. r.id) gs) m.id)) rows ≡ rows
  unfolding filter contains
  nothing_gone [] [] h = refl
  nothing_gone [] (r ∷ rows) h = ground (arith, nothing_gone [] rows h)
  nothing_gone (g ∷ gs) rows h = cc

  nobody : (us : List ℕ) → is_empty us ≡ true → us ≡ []
  nobody [] h = refl
  nobody (u ∷ us) h = cc

  module _ (env : Env) (s : Db) (unique : UniqueMentions s.mentions) where
    -- The rows after the deletion, whichever branch it takes.
    abbrev remaining : List Mention
    remaining = filter (λ m. not (goes m)) s.mentions

    abbrev fresh : List ℕ
    fresh = to_add comment_id new_ids s.mentions

    deletion : filter (λ m. not (contains (gone s.mentions) m.id)) s.mentions ≡ remaining
    deletion = filter-agree _ _ s.mentions (λ r k. ap not (gone-goes s.mentions r unique k))

    contains-fresh :
        (u : ℕ)
        → contains fresh u
          ≡ contains new_ids u && not (contains (mentioned_in comment_id s.mentions) u)
    unfolding to_add contains
    contains-fresh u = ground (
      arith,
      contains-filter_test (λ v. not (contains (mentioned_in comment_id s.mentions) v))
          (distinct_from [] new_ids) u,
      contains-distinct_from [] new_ids u,
    )

    inserted :
        insert_mentions env comment_id fresh (record s { mentions = remaining })
        ≡ (ok tt, record s { mentions = add_mentions env comment_id fresh remaining })
    unfolding insert_mentions
    inserted = ground (
      arith,
      no_clash fresh remaining
          (λ v k. ground (arith, contains-fresh v, mentioned-stay s.mentions v)),
    )

    delete_step :
        (if is_empty (to_delete comment_id new_ids s.mentions)
            then pure tt
            else modify λ d. record d {
              mentions = filter (λ m. not (contains (gone s.mentions) m.id)) d.mentions;
            })
          s
        ≡ (ok tt, record s { mentions = remaining })
    delete_step = elim (Bool-cases (is_empty (to_delete comment_id new_ids s.mentions))) [
      | inl none_gone ↦
          let same : s.mentions ≡ remaining =
            sym (nothing_gone (to_delete comment_id new_ids s.mentions) s.mentions none_gone)
            ∙ deletion in
          rw none_gone (ap (λ rows. (ok tt, record s { mentions = rows })) same)
      | inr some_gone ↦ rw some_gone (ap (λ rows. (ok tt, record s { mentions = rows })) deletion)
    ]

    insert_step :
        (if is_empty fresh then pure tt else insert_mentions env comment_id fresh)
          (record s { mentions = remaining })
        ≡ (ok tt, record s { mentions = add_mentions env comment_id fresh remaining })
    unfolding add_mentions
    insert_step = elim (Bool-cases (is_empty fresh)) [
      | inl e ↦ rw e (
          ap (λ us. (ok tt, record s { mentions = add_mentions env comment_id us remaining }))
            (sym (nobody fresh e)))
      | inr e ↦ rw e inserted
    ]

    synced :
        sync_mentions env comment_id new_ids s
        ≡ (ok tt, record s { mentions = add_mentions env comment_id fresh remaining })
    unfolding sync_mentions ◌>>=◌
    synced =
        ap
          (λ (q : Result Unit × Db). elim (q.0) [
            | ok u ↦ (if is_empty fresh then pure tt else insert_mentions env comment_id fresh) q.1
            | err e ↦ (err e, q.1)
          ])
          delete_step
        ∙ insert_step

    -- If the ids of the mentions are unique, bringing the mentions of a comment into line with the users
    -- that a text names never fails, changes no other table, and leaves a user mentioned in the comment
    -- exactly if the text names it.
    pub sync_mentions_lem :
        (u : ℕ)
        → ((sync_mentions env comment_id new_ids s).0 ≡ ok tt)
          × ((sync_mentions env comment_id new_ids s).1
              ≡ record s { mentions = (sync_mentions env comment_id new_ids s).1.mentions })
          × (contains
                (mentioned_in comment_id (sync_mentions env comment_id new_ids s).1.mentions)
                u
              ≡ contains new_ids u)
    sync_mentions_lem u = (
      ground (arith, synced),
      ground (arith, synced),
      ap (λ (r : Result Unit × Db). contains (mentioned_in comment_id r.1.mentions) u) synced
          ∙ mentioned-add env fresh remaining u
          ∙ ground (arith, mentioned-stay s.mentions u, contains-fresh u),
    )
