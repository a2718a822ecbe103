-- ===== src/History/Names.antt =====
-- The names of the users where their rows change.
use mathlib.Core.List.{Memᴰ}
use issueflow.Prelude.{
  ◌≡◌, refl, arith, true, false, Bool, Bool-cases, inl, inr, some, List, [], ◌∷◌, any, update_where,
  ◌==◌, ==_iff, sym, find_one,
}
use issueflow.Entities.{User, is_null}
use issueflow.Users.{clashes}
use issueflow.Users.Unique.{NoClash}
use issueflow.History.Tables.{UniqueKeys, same_row, find_one-mem}
use issueflow.History.Later.{UserBecomes}

-- A change that does not bring a row back brings no clash with it.
apart :
    (u u' r r' : User)
    → UserBecomes u u'
    → UserBecomes r r'
    → clashes u r ≡ false
    → clashes u' r' ≡ false
unfolding clashes
apart u u' r r' p q h = ground arith

alive_before :
    (u u' : User) → UserBecomes u u' → is_null u'.deleted_at ≡ true → is_null u.deleted_at ≡ true
alive_before u u' h live = ground arith

unchanged : (u : User) → UserBecomes u u
unchanged u = ground arith

module _ (p : User → Bool) (f : User → User) where
  abbrev Each : List User → Type 0
  Each us = (r : User) → Memᴰ r us → p r ≡ true → UserBecomes r (f r)

  all_apart :
      (u u' : User) (us : List User)
      → UserBecomes u u'
      → Each us
      → any (clashes u) us ≡ false
      → any (clashes u') (update_where p f us) ≡ false
  unfolding any update_where
  all_apart u u' [] h each k = refl
  all_apart u u' (r ∷ us) h each k =
      let rest = all_apart u u' us h (λ x m. each x (Memᴰ.tail m)) in
      elim (Bool-cases (p r)) [
        | inl hit ↦ ground (arith, hit, rest, apart u u' r (f r) h (each r (Memᴰ.head refl) hit))
        | inr miss ↦ ground (arith, miss, rest, apart u u' r r h (unchanged r))
      ]

  pub NoClash-update_where : (us : List User) → Each us → NoClash us → NoClash (update_where p f us)
  unfolding update_where
  NoClash-update_where [] each n = tt
  NoClash-update_where (u ∷ us) each n =
      let deeper = λ (x : User) (m : Memᴰ x us). each x (Memᴰ.tail m) in
      let rest = NoClash-update_where us deeper n.1 in
      elim (Bool-cases (p u)) [
        | inl hit ↦
            let h = each u (Memᴰ.head refl) hit in
            rw hit
              ((λ live. all_apart u (f u) us h deeper (n.0 (alive_before u (f u) h live))), rest)
        | inr miss ↦ rw miss ((λ live. all_apart u u us (unchanged u) deeper (n.0 live)), rest)
      ]

-- A `save` of a user over the row that was found.
pub NoClash-save :
    (g : User → Bool) (t : User) (us : List User) {row : User}
    → find_one g us ≡ some row
    → UserBecomes row t
    → UniqueKeys (λ (u : User). u.id) us
    → NoClash us
    → NoClash (update_where (λ r. r.id == row.id) (λ r. t) us)
NoClash-save g t us {row} found h u n =
    NoClash-update_where (λ r. r.id == row.id) (λ r. t) us
      (λ r m hit.
        let same =
          same_row (λ (x : User). x.id) us row r u (find_one-mem g us found) m
            (sym ((==_iff r.id row.id).0 hit)) in
        rw (← same) h)
      n
