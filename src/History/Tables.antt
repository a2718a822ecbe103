-- ===== src/History/Tables.antt =====
-- A table over time: its rows keep their keys and their places, each becomes what it may become, and new
-- rows come behind them.
use mathlib.Core.List.{Memᴰ}
use issueflow.Prelude.{
  ℕ, ◌≡◌, refl, sym, ap, ◌∙◌, arith, Bool, true, false, Bool-cases, inl, inr, some, List, [], ◌∷◌,
  ◌++◌, map, contains, find_one, update_where, ◌==◌, ==_iff, ==_refl,
}

module _ {A : Type 0} (key : A → ℕ) where
  -- No key stands twice.
  abbrev pub UniqueKeys : List A → Type 0
  UniqueKeys [] = Unit
  UniqueKeys (x ∷ xs) = (contains (map key xs) (key x) ≡ false) × UniqueKeys xs

  pub key_present : (xs : List A) (x : A) → Memᴰ x xs → contains (map key xs) (key x) ≡ true
  unfolding contains
  key_present [] x m = elim m [ ]
  key_present (y ∷ ys) x (Memᴰ.head e) = rw e (ground (arith, ==_refl (key y)))
  key_present (y ∷ ys) x (Memᴰ.tail m) = ground (arith, key_present ys x m)

  -- Rows with one key are one row.
  pub same_row :
      (xs : List A) (x y : A) → UniqueKeys xs → Memᴰ x xs → Memᴰ y xs → key x ≡ key y → x ≡ y
  same_row [] x y u m k e = elim m [ ]
  same_row (z ∷ zs) x y u (Memᴰ.head p) (Memᴰ.head q) e = cc
  same_row (z ∷ zs) x y u (Memᴰ.head p) (Memᴰ.tail k) e =
      let there = key_present zs y k in absurd (cc (ap key p))
  same_row (z ∷ zs) x y u (Memᴰ.tail m) (Memᴰ.head q) e =
      let there = key_present zs x m in absurd (cc (ap key q))
  same_row (z ∷ zs) x y u (Memᴰ.tail m) (Memᴰ.tail k) e = same_row zs x y u.1 m k e

  key-append_one :
      (xs : List A) (x : A) (n : ℕ)
      → contains (map key xs) n ≡ false
      → key x == n ≡ false
      → contains (map key (xs ++ x ∷ [])) n ≡ false
  unfolding contains
  key-append_one [] x n h k = ground arith
  key-append_one (y ∷ ys) x n h k = ground (arith, key-append_one ys x n)

  pub UniqueKeys-append_one :
      (xs : List A) (x : A)
      → UniqueKeys xs
      → contains (map key xs) (key x) ≡ false
      → UniqueKeys (xs ++ x ∷ [])
  unfolding contains
  UniqueKeys-append_one [] x u h = (refl, tt)
  UniqueKeys-append_one (y ∷ ys) x u h = (
    key-append_one ys x (key y) u.0
        (ground (arith, ==_iff (key x) (key y), ==_iff (key y) (key x))),
    UniqueKeys-append_one ys x u.1 (ground arith),
  )

pub find_one-mem :
    {A : Type 0} (p : A → Bool) (xs : List A) {x : A} → find_one p xs ≡ some x → Memᴰ x xs
unfolding find_one
find_one-mem p [] h = absurd (cc)
find_one-mem p (y ∷ ys) {x} h = elim (Bool-cases (p y)) [
  | inl here ↦ let e : x ≡ y = ground arith in Memᴰ.head e
  | inr later ↦ Memᴰ.tail (find_one-mem p ys (rw later at h))
]

-- What a row may become: never a row of another key.
pub record Becoming {A : Type 0} (key : A → ℕ) (Becomes : A → A → Type 0) : Type 0 where
  pub still : (x : A) → Becomes x x
  pub further : (x y z : A) → Becomes x y → Becomes y z → Becomes x z
  pub same_key : (x y : A) → Becomes x y → key y ≡ key x

abbrev pub Descends : {A : Type 0} → (A → A → Type 0) → List A → List A → Type 0
Descends R [] ys = Unit
Descends R (x ∷ xs) [] = ⊥
Descends R (x ∷ xs) (y ∷ ys) = R x y × Descends R xs ys

-- If the keys were unique, they are, and every row has become what it may become.
abbrev pub Moves : {A : Type 0} → (A → ℕ) → (A → A → Type 0) → List A → List A → Type 0
Moves key R xs ys = UniqueKeys key xs → UniqueKeys key ys × Descends R xs ys

module _ {A : Type 0} {key : A → ℕ} {R : A → A → Type 0} (b : Becoming key R) where
  Descends-refl : (xs : List A) → Descends R xs xs
  Descends-refl [] = tt
  Descends-refl (x ∷ xs) = (b.still x, Descends-refl xs)

  Descends-trans : (xs ys zs : List A) → Descends R xs ys → Descends R ys zs → Descends R xs zs
  Descends-trans [] ys zs p q = tt
  Descends-trans (x ∷ xs) [] zs p q = elim p [ ]
  Descends-trans (x ∷ xs) (y ∷ ys) [] p q = elim q [ ]
  Descends-trans (x ∷ xs) (y ∷ ys) (z ∷ zs) p q =
      (b.further x y z p.0 q.0, Descends-trans xs ys zs p.1 q.1)

  pub Moves-refl : (xs : List A) → Moves key R xs xs
  Moves-refl xs u = (u, Descends-refl xs)

  pub Moves-trans : (xs ys zs : List A) → Moves key R xs ys → Moves key R ys zs → Moves key R xs zs
  Moves-trans xs ys zs m k u =
      let (uy, d) = m u in let (uz, e) = k uy in (uz, Descends-trans xs ys zs d e)

  Descends-append_one : (xs : List A) (x : A) → Descends R xs (xs ++ x ∷ [])
  Descends-append_one [] x = tt
  Descends-append_one (y ∷ ys) x = (b.still y, Descends-append_one ys x)

  -- An insert with a new key.
  pub Moves-append_one :
      (xs : List A) (x : A) → contains (map key xs) (key x) ≡ false → Moves key R xs (xs ++ x ∷ [])
  Moves-append_one xs x new u = (UniqueKeys-append_one key xs x u new, Descends-append_one xs x)

  module _ (p : A → Bool) (f : A → A) where
    abbrev Each : List A → Type 0
    Each xs = (r : A) → Memᴰ r xs → p r ≡ true → R r (f r)

    update-Descends : (xs : List A) → Each xs → Descends R xs (update_where p f xs)
    unfolding update_where
    update-Descends [] h = tt
    update-Descends (x ∷ xs) h = elim (Bool-cases (p x)) [
      | inl hit ↦ rw hit (h x (Memᴰ.head refl) hit, update-Descends xs (λ r m. h r (Memᴰ.tail m)))
      | inr miss ↦ rw miss (b.still x, update-Descends xs (λ r m. h r (Memᴰ.tail m)))
    ]

    update_keys : (xs : List A) → Each xs → map key (update_where p f xs) ≡ map key xs
    unfolding update_where
    update_keys [] h = refl
    update_keys (x ∷ xs) h = elim (Bool-cases (p x)) [
      | inl hit ↦
          let same = b.same_key x (f x) (h x (Memᴰ.head refl) hit) in
          let rest = update_keys xs (λ r m. h r (Memᴰ.tail m)) in rw hit (cc)
      | inr miss ↦ let rest = update_keys xs (λ r m. h r (Memᴰ.tail m)) in rw miss (cc)
    ]

    update-UniqueKeys :
        (xs : List A) → Each xs → UniqueKeys key xs → UniqueKeys key (update_where p f xs)
    unfolding update_where
    update-UniqueKeys [] h u = tt
    update-UniqueKeys (x ∷ xs) h u =
        let deeper = λ (r : A) (m : Memᴰ r xs). h r (Memᴰ.tail m) in
        let rest = update-UniqueKeys xs deeper u.1 in
        elim (Bool-cases (p x)) [
          | inl hit ↦
              let same = b.same_key x (f x) (h x (Memᴰ.head refl) hit) in
              rw hit (rw same (rw (update_keys xs deeper) u.0), rest)
          | inr miss ↦ rw miss (rw (update_keys xs deeper) u.0, rest)
        ]

    -- An UPDATE whose rows become what they may.
    pub Moves-update_where :
        (xs : List A) → (UniqueKeys key xs → Each xs) → Moves key R xs (update_where p f xs)
    Moves-update_where xs h u = (update-UniqueKeys xs (h u) u, update-Descends xs (h u))

  -- A `save` of an entity over the row that was found.
  pub Moves-save :
      (g : A → Bool) (n : ℕ) (t : A) (xs : List A) {row : A}
      → find_one g xs ≡ some row
      → key row ≡ n
      → R row t
      → Moves key R xs (update_where (λ r. key r == n) (λ r. t) xs)
  Moves-save g n t xs {row} found own h =
      Moves-update_where (λ r. key r == n) (λ r. t) xs
        λ u r m hit.
          let same =
            same_row key xs row r u (find_one-mem g xs found) m
              (own ∙ sym ((==_iff (key r) n).0 hit)) in
          rw (← same) h

  -- The row of a key, some time later.
  pub Descends-find_one :
      (n : ℕ) (xs ys : List A) {x : A}
      → Descends R xs ys
      → find_one (λ r. key r == n) xs ≡ some x
      → (y : A) × (find_one (λ r. key r == n) ys ≡ some y) × R x y
  unfolding find_one
  Descends-find_one n [] ys d h = absurd (cc)
  Descends-find_one n (z ∷ zs) [] d h = elim d [ ]
  Descends-find_one n (z ∷ zs) (w ∷ ws) {x} d h = elim (Bool-cases (key z == n)) [
    | inl here ↦
        let e : z ≡ x = ground (arith, here) in
        let there : key w == n ≡ true = rw (b.same_key z w d.0) here in
        (w, rw there refl, rw (← e) (d.0))
    | inr other ↦
        let there : key w == n ≡ false = rw (b.same_key z w d.0) other in
        rw there (Descends-find_one n zs ws d.1 (rw other at h))
  ]
