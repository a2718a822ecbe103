-- ===== src/Prelude/Rows.antt =====
-- How the operations on rows act on one another.
use issueflow.Prelude.Tests.{Bool-cases, ==_refl}
use issueflow.Prelude.Lists.{length, find_one, filter, update_where, contains, is_empty}
use Prim.Native.Nat.{ℕ}
use mathlib.Core.Path.{◌≡◌, refl, ap}
use mathlib.Core.Logic.{inl, inr}
use mathlib.Core.Bool.{Bool, true, false}
use mathlib.Core.Option.{some}
use mathlib.Core.List.{List, [], ◌∷◌, ◌++◌, map, Memᴰ}
use native.Mathlib.Omega.{arith}

module _ {A : Type 0} (p : A → Bool) where
  -- The row found is the row that is written.
  pub find_one-update_where :
      (f : A → A) (keep : (y : A) → p y ≡ true → p (f y) ≡ true) (xs : List A) {x : A}
      → find_one p xs ≡ some x
      → find_one p (update_where p f xs) ≡ some (f x)
  unfolding find_one update_where
  find_one-update_where f keep [] h = cc
  find_one-update_where f keep (y ∷ ys) {x} h =
      ground (arith, keep y, find_one-update_where f keep ys {x = x})

  pub find_one_sound : (xs : List A) {x : A} → find_one p xs ≡ some x → p x ≡ true
  unfolding find_one
  find_one_sound [] h = cc
  find_one_sound (y ∷ ys) {x} h = ground (arith, find_one_sound ys {x = x})

  pub find_one-update_where_const :
      (t : A)
      → p t ≡ true
      → (xs : List A) {x : A} → find_one p xs ≡ some x
      → find_one p (update_where p (λ r. t) xs) ≡ some t
  find_one-update_where_const t h xs e = find_one-update_where (λ r. t) (λ y q. h) xs e

  -- A row found by a key that the write keeps, where the write reaches it.
  pub find_one-update_where_hit :
      (q : A → Bool) (f : A → A) (same : (y : A) → p (f y) ≡ p y) (xs : List A) {x : A}
      → find_one p xs ≡ some x
      → q x ≡ true
      → find_one p (update_where q f xs) ≡ some (f x)
  unfolding find_one update_where
  find_one-update_where_hit q f same [] h k = cc
  find_one-update_where_hit q f same (y ∷ ys) {x} h k =
      ground (arith, same y, find_one-update_where_hit q f same ys {x = x})

  -- A filter that keeps nothing refuses every row.
  pub filter-none : (xs : List A) (x : A) → is_empty (filter p xs) ≡ true → Memᴰ x xs → p x ≡ false
  unfolding filter
  filter-none [] x h m = elim m [ ]
  filter-none (y ∷ ys) x h (Memᴰ.head e) = rw e (ground arith)
  filter-none (y ∷ ys) x h (Memᴰ.tail m) = ground (arith, filter-none ys x)

  -- `IN` over a column of the rows that a filter keeps.
  pub contains-filter :
      (f : A → ℕ) (xs : List A) (x : A)
      → Memᴰ x xs
      → p x ≡ true
      → contains (map f (filter p xs)) (f x) ≡ true
  unfolding filter contains
  contains-filter f [] x m h = elim m [ ]
  contains-filter f (y ∷ ys) x (Memᴰ.head e) h =
      let kept : p y ≡ true = rw (← e) h in rw e (ground (arith, kept, ==_refl (f y)))
  contains-filter f (y ∷ ys) x (Memᴰ.tail m) h = ground (arith, contains-filter f ys x m h)

  pub mem-filter : (xs : List A) (x : A) → Memᴰ x xs → p x ≡ true → Memᴰ x (filter p xs)
  unfolding filter
  mem-filter [] x m h = elim m [ ]
  mem-filter (y ∷ ys) x (Memᴰ.head e) h =
      let kept : p y ≡ true = rw (← e) h in rw kept (Memᴰ.head e)
  mem-filter (y ∷ ys) x (Memᴰ.tail m) h = elim (Bool-cases (p y)) [
    | inl kept ↦ rw kept (Memᴰ.tail (mem-filter ys x m h))
    | inr gone ↦ rw gone (mem-filter ys x m h)
  ]

  pub filter-mem : (xs : List A) (x : A) → Memᴰ x (filter p xs) → Memᴰ x xs × (p x ≡ true)
  unfolding filter
  filter-mem [] x m = elim m [ ]
  filter-mem (y ∷ ys) x m = elim (Bool-cases (p y)) [
    | inl kept ↦ in_front (filter-mem ys x) kept (rw kept at m)
    | inr gone ↦ let (later, h) = filter-mem ys x (rw gone at m) in (Memᴰ.tail later, h)
  ]
    where
      in_front :
          (Memᴰ x (filter p ys) → Memᴰ x ys × (p x ≡ true))
          → p y ≡ true
          → Memᴰ x (y ∷ filter p ys)
          → Memᴰ x (y ∷ ys) × (p x ≡ true)
      in_front ih kept (Memᴰ.head e) = (Memᴰ.head e, rw e kept)
      in_front ih kept (Memᴰ.tail r) = let (later, h) = ih r in (Memᴰ.tail later, h)

  -- An UPDATE that meets no row changes nothing.
  pub update_where-none :
      (f : A → A) (xs : List A) → is_empty (filter p xs) ≡ true → update_where p f xs ≡ xs
  unfolding update_where filter
  update_where-none f [] h = refl
  update_where-none f (x ∷ xs) h = ground (arith, update_where-none f xs)

pub is_empty-map : {A B : Type 0} (f : A → B) (xs : List A) → is_empty (map f xs) ≡ is_empty xs
is_empty-map f [] = refl
is_empty-map f (x ∷ xs) = refl

pub append_nil : {A : Type 0} (xs : List A) → xs ++ [] ≡ xs
append_nil [] = refl
append_nil (x ∷ xs) = ap (λ ys. x ∷ ys) (append_nil xs)

pub append_assoc : {A : Type 0} (xs ys zs : List A) → (xs ++ ys) ++ zs ≡ xs ++ (ys ++ zs)
append_assoc [] ys zs = refl
append_assoc (x ∷ xs) ys zs = ap (λ us. x ∷ us) (append_assoc xs ys zs)

pub length-map : {A B : Type 0} (f : A → B) (xs : List A) → length (map f xs) ≡ length xs
length-map f [] = refl
length-map f (x ∷ xs) = omega (arith, length-map f xs)
