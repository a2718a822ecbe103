-- ===== src/Prelude/Order/Ranking.antt =====
-- The first row of an ORDER BY.
use mathlib.Core.List.{Memᴰ}
use mathlib.Core.Path.{◌≡◌, refl}
use mathlib.Core.Bool.{Bool, true, false}
use mathlib.Core.List.{List, [], ◌∷◌}
use mathlib.Core.Logic.{inl, inr}
use native.Mathlib.Omega.{arith}
use issueflow.Prelude.Tests.{Bool-cases}
use issueflow.Prelude.Order.{insert_by, order_by}

-- A strict weak order, by its two laws.
pub record IsRanking {A : Type 0} (before : A → A → Bool) : Type 0 where
  pub asym : (a b : A) → before a b ≡ true → before b a ≡ false
  pub weak : (a b c : A) → before a b ≡ false → before b c ≡ false → before a c ≡ false

module _ {A : Type 0} (before : A → A → Bool) where
  pub insert_by-mem : (x z : A) (ys : List A) → Memᴰ z (insert_by before x ys) → Memᴰ z (x ∷ ys)
  unfolding insert_by
  insert_by-mem x z [] m = m
  insert_by-mem x z (y ∷ ys) m = elim (Bool-cases (before y x)) [
    | inl goes ↦ behind (insert_by-mem x z ys) (rw goes at m)
    | inr stays ↦ rw stays at m
  ]
    where
      swap : Memᴰ z (x ∷ ys) → Memᴰ z (x ∷ y ∷ ys)
      swap (Memᴰ.head e) = Memᴰ.head e
      swap (Memᴰ.tail k) = Memᴰ.tail (Memᴰ.tail k)

      behind :
          (Memᴰ z (insert_by before x ys) → Memᴰ z (x ∷ ys))
          → Memᴰ z (y ∷ insert_by before x ys)
          → Memᴰ z (x ∷ y ∷ ys)
      behind ih (Memᴰ.head e) = Memᴰ.tail (Memᴰ.head e)
      behind ih (Memᴰ.tail k) = swap (ih k)

  -- Every row of the ordered list is a row of the list.
  pub order_by-mem : (xs : List A) (z : A) → Memᴰ z (order_by before xs) → Memᴰ z xs
  unfolding order_by
  order_by-mem [] z m = m
  order_by-mem (x ∷ xs) z m = place (insert_by-mem x z (order_by before xs) m) (order_by-mem xs z)
    where
      place :
          Memᴰ z (x ∷ order_by before xs)
          → (Memᴰ z (order_by before xs) → Memᴰ z xs)
          → Memᴰ z (x ∷ xs)
      place (Memᴰ.head e) ih = Memᴰ.head e
      place (Memᴰ.tail k) ih = Memᴰ.tail (ih k)

  insert_by-nonempty : (x : A) (ys : List A) → insert_by before x ys ≡ [] → ⊥
  unfolding insert_by
  insert_by-nonempty x [] e = cc
  insert_by-nonempty x (y ∷ ys) e = ground arith

  order_by-nonempty : (xs : List A) (z : A) → Memᴰ z xs → order_by before xs ≡ [] → ⊥
  order_by-nonempty [] z m e = elim m [ ]
  order_by-nonempty (x ∷ xs) z m e =
      insert_by-nonempty x (order_by before xs) (unfold order_by in e)

  -- The first row after an insertion.
  first : (x : A) (ys : List A) (h : A) (rest : List A) → insert_by before x [] ≡ h ∷ rest → x ≡ h
  unfolding insert_by
  first x ys h rest e = cc

  kept :
      {x y h : A} (ys : List A) {rest : List A}
      → before y x ≡ true
      → insert_by before x (y ∷ ys) ≡ h ∷ rest
      → y ≡ h
  unfolding insert_by
  kept ys b e = ground arith

  placed :
      {x y h : A} (ys : List A) {rest : List A}
      → before y x ≡ false
      → insert_by before x (y ∷ ys) ≡ h ∷ rest
      → x ≡ h
  unfolding insert_by
  placed ys b e = ground arith

  module _ (rank : IsRanking before) where
    before_self : (a : A) → before a a ≡ false
    before_self a = elim (Bool-cases (before a a)) [ inl e ↦ rank.asym a a e | inr e ↦ e ]

    -- No row comes before the first row of the ordered list.
    pub order_by-first :
        (xs : List A) (h : A) (rest : List A)
        → order_by before xs ≡ h ∷ rest
        → (z : A) → Memᴰ z xs
        → before z h ≡ false
    unfolding order_by
    order_by-first [] h rest e z m = elim m [ ]
    order_by-first (x ∷ xs) h rest e z m = go (order_by before xs) refl (order_by-first xs) e m
      where
        go :
            (ys : List A)
            → order_by before xs ≡ ys
            → ((h' : A) (rest' : List A)
                → order_by before xs ≡ h' ∷ rest'
                → (w : A) → Memᴰ w xs
                → before w h' ≡ false)
            → insert_by before x (order_by before xs) ≡ h ∷ rest
            → Memᴰ z (x ∷ xs)
            → before z h ≡ false
        go [] p ih k (Memᴰ.head q) =
            let same : x ≡ h = first x [] h rest (rw p at k) in rw (q, ← same) (before_self x)
        go [] p ih k (Memᴰ.tail q) = absurd (order_by-nonempty xs z q p)
        go (y ∷ ys) p ih k mem = elim (Bool-cases (before y x)) [
          | inl goes ↦ below mem (λ q. ih y ys p z q) goes (kept ys goes (rw p at k))
          | inr stays ↦ above mem (λ q. ih y ys p z q) stays (placed ys stays (rw p at k))
        ]
          where
            below :
                Memᴰ z (x ∷ xs)
                → (Memᴰ z xs → before z y ≡ false)
                → before y x ≡ true
                → y ≡ h
                → before z h ≡ false
            below (Memᴰ.head q) ih' goes same = rw (q, ← same) (rank.asym y x goes)
            below (Memᴰ.tail q) ih' goes same = rw (← same) (ih' q)

            above :
                Memᴰ z (x ∷ xs)
                → (Memᴰ z xs → before z y ≡ false)
                → before y x ≡ false
                → x ≡ h
                → before z h ≡ false
            above (Memᴰ.head q) ih' stays same = rw (q, ← same) (before_self x)
            above (Memᴰ.tail q) ih' stays same = rw (← same) (rank.weak z y x (ih' q) stays)
