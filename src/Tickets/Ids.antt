-- ===== src/Tickets/Ids.antt =====
-- Tickets by their ids, which are a primary key.
use mathlib.Core.List.{Memᴰ}
use issueflow.Prelude.{
  ℕ, ◌≡◌, refl, true, false, Bool, none, some, List, [], ◌∷◌, arith, contains, map, filter,
  find_one, ◌==◌, ==_iff, ==_refl, Bool-cases, inl, inr, if◌then◌else◌, update_where,
}
use issueflow.Entities.{Ticket}

abbrev pub ids_of : List Ticket → List ℕ
ids_of = map (λ t. t.id)

-- No id stands twice.
abbrev pub UniqueIds : List Ticket → Type 0
UniqueIds [] = Unit
UniqueIds (t ∷ ts) = (contains (ids_of ts) t.id ≡ false) × UniqueIds ts

module _ (p : Ticket → Bool) where
  pub absent :
      (xs : List Ticket) (n : ℕ)
      → contains (ids_of xs) n ≡ false
      → (find_one (λ t. t.id == n) (filter p xs) ≡ none)
        × (contains (ids_of (filter p xs)) n ≡ false)
  unfolding contains find_one filter
  absent [] n h = (refl, refl)
  absent (x ∷ xs) n h = ground (arith, absent xs n)

  pub UniqueIds-filter : (xs : List Ticket) → UniqueIds xs → UniqueIds (filter p xs)
  unfolding filter
  UniqueIds-filter [] u = tt
  UniqueIds-filter (x ∷ xs) u = elim (Bool-cases (p x)) [
    | inl kept ↦ rw kept ((absent xs x.id u.0).1, UniqueIds-filter xs u.1)
    | inr gone ↦ rw gone (UniqueIds-filter xs u.1)
  ]

  pub present : (xs : List Ticket) (r : Ticket) → Memᴰ r xs → contains (ids_of xs) r.id ≡ true
  unfolding contains
  present [] r m = elim m [ ]
  present (x ∷ xs) r (Memᴰ.head e) = rw e (ground (arith, ==_refl x.id))
  present (x ∷ xs) r (Memᴰ.tail m) = ground (arith, present xs r m)

  -- With unique ids, looking a row up by its id among those that meet `p` finds it, if it does.
  pub found_again :
      (xs : List Ticket) (r : Ticket)
      → UniqueIds xs
      → Memᴰ r xs
      → find_one (λ t. t.id == r.id) (filter p xs) ≡ (if p r then some r else none)
  unfolding find_one filter
  found_again [] r u m = elim m [ ]
  found_again (x ∷ xs) r u (Memᴰ.head e) =
      rw e (ground (arith, ==_refl x.id, (absent xs x.id u.0).0))
  found_again (x ∷ xs) r u (Memᴰ.tail m) =
      ground (arith, found_again xs r u.1 m, present xs r m, ==_iff x.id r.id)

  -- With unique ids, the ids of the rows that meet `p` hold the id of just those rows.
  pub contains-ids_of :
      (xs : List Ticket) (r : Ticket)
      → UniqueIds xs
      → Memᴰ r xs
      → contains (ids_of (filter p xs)) r.id ≡ p r
  unfolding filter contains
  contains-ids_of [] r u m = elim m [ ]
  contains-ids_of (x ∷ xs) r u (Memᴰ.head e) =
      rw e (ground (arith, ==_refl x.id, (absent xs x.id u.0).1))
  contains-ids_of (x ∷ xs) r u (Memᴰ.tail m) =
      ground (arith, contains-ids_of xs r u.1 m, present xs r m, ==_iff x.id r.id)

  module _ (f : Ticket → Ticket) (same_id : (t : Ticket) → (f t).id ≡ t.id) where
    ids-update_where :
        (xs : List Ticket) (n : ℕ)
        → contains (ids_of (update_where p f xs)) n ≡ contains (ids_of xs) n
    unfolding contains update_where
    ids-update_where [] n = refl
    ids-update_where (x ∷ xs) n = ground (arith, ids-update_where xs n, same_id x)

    pub UniqueIds-update_where : (xs : List Ticket) → UniqueIds xs → UniqueIds (update_where p f xs)
    unfolding update_where
    UniqueIds-update_where [] u = tt
    UniqueIds-update_where (x ∷ xs) u =
        (ground (arith, ids-update_where xs x.id, same_id x, u.0), UniqueIds-update_where xs u.1)

-- Two conditions that agree on the rows update the same.
pub update_where-agree :
    (p q : Ticket → Bool) (f : Ticket → Ticket) (xs : List Ticket)
    → ((r : Ticket) → Memᴰ r xs → p r ≡ q r)
    → update_where p f xs ≡ update_where q f xs
unfolding update_where
update_where-agree p q f [] h = refl
update_where-agree p q f (x ∷ xs) h =
    ground (arith, h x (Memᴰ.head refl), update_where-agree p q f xs (λ r m. h r (Memᴰ.tail m)))
