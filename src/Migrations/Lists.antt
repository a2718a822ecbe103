-- ===== src/Migrations/Lists.antt =====
-- `any` behind a filter and behind an update.
use issueflow.Prelude.{
  ◌≡◌, refl, Bool, true, false, List, [], ◌∷◌, filter, any, update_where, if◌then◌else◌, arith,
}

-- What is found behind a filter is there, and the filter accepts it.
pub any-filter :
    {A : Type 0} (p q : A → Bool) (xs : List A) → any p (filter q xs) ≡ true → any p xs ≡ true
unfolding any filter
any-filter p q [] h = cc
any-filter p q (x ∷ xs) h = ground (arith, any-filter p q xs)

-- What a filter that only drops other things leaves is still found.
pub any-filter_hit :
    {A : Type 0} (p q : A → Bool) (xs : List A)
    → ((x : A) → p x ≡ true → q x ≡ true)
    → any p xs ≡ true
    → any p (filter q xs) ≡ true
unfolding any filter
any-filter_hit p q [] f h = cc
any-filter_hit p q (x ∷ xs) f h = ground (arith, f x, any-filter_hit p q xs f)

-- A filter that drops everything `p` accepts leaves nothing of it.
pub any-filter_not :
    {A : Type 0} (p q : A → Bool) (xs : List A)
    → ((x : A) → p x ≡ true → q x ≡ false)
    → any p (filter q xs) ≡ false
unfolding any filter
any-filter_not p q [] f = refl
any-filter_not p q (x ∷ xs) f = ground (arith, f x, any-filter_not p q xs f)

pub any_mono :
    {A : Type 0} (p q : A → Bool) (xs : List A)
    → ((x : A) → p x ≡ true → q x ≡ true)
    → any p xs ≡ true
    → any q xs ≡ true
unfolding any
any_mono p q [] f h = cc
any_mono p q (x ∷ xs) f h = ground (arith, f x, any_mono p q xs f)

-- What is found after an update was found before it, and the other way round.
module _ {A : Type 0} (p r q : A → Bool) (f : A → A) where
  pub any-update_where :
      (xs : List A)
      → ((x : A) → p (if q x then f x else x) ≡ true → r x ≡ true)
      → any p (update_where q f xs) ≡ true
      → any r xs ≡ true
  unfolding any update_where
  any-update_where [] g h = cc
  any-update_where (x ∷ xs) g h = ground (arith, g x, any-update_where xs g)

  pub any-update_where_hit :
      (xs : List A)
      → ((x : A) → r x ≡ true → p (if q x then f x else x) ≡ true)
      → any r xs ≡ true
      → any p (update_where q f xs) ≡ true
  unfolding any update_where
  any-update_where_hit [] g h = cc
  any-update_where_hit (x ∷ xs) g h = ground (arith, g x, any-update_where_hit xs g)
