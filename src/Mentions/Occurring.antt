-- ===== src/Mentions/Occurring.antt =====
-- What the parser of mentions finds stands in the text.
use issueflow.Prelude.{
  ℕ, zero, suc, ◌≡◌, refl, sym, ap, arith, Text, text_eq, ◌==◌, ==_iff, ◌&&◌, not, Bool, true,
  false, Option, none, some, List, [], ◌∷◌, ◌++◌, any, is_empty, All, Bool-cases, inl, inr,
}
use mathlib.Core.Path.{subst}
use issueflow.Store.{Env}
use issueflow.Mentions.{
  is_name_char, take_name, name_at, match_at, match_all, add_once, collect, extract_usernames,
}
use issueflow.Mentions.Reading.{any_append_one, last_is, first_is, every}

-- What comes before a mention: nothing, at the start of a text, or a last character that is no
-- word character.
abbrev pub opens : Env → Bool → Text → Bool
opens env start [] = start
opens env start (c ∷ cs) = last_is (λ d. not (env.is_word d)) (c ∷ cs)

-- `name` stands in the text behind an `@`, as long as it can be.
abbrev pub Occurs : Env → Bool → Text → Text → Type 0
Occurs env start text name =
    (before : Text) × (after : Text) × (text ≡ before ++ b'@' ∷ (name ++ after))
    × (opens env start before ≡ true)
    × (is_empty name ≡ false)
    × (every (is_name_char env) name ≡ true)
    × (first_is (λ c. not (is_name_char env c)) after ≡ true)

module _ (env : Env) where
  take_name-split :
      (cs : Text)
      → (after : Text) × (cs ≡ take_name env cs ++ after)
        × (every (is_name_char env) (take_name env cs) ≡ true)
        × (first_is (λ c. not (is_name_char env c)) after ≡ true)
  unfolding take_name
  take_name-split [] = ([], refl, refl, refl)
  take_name-split (c ∷ cs) = elim (Bool-cases (is_name_char env c)) [
    | inl letter ↦
        let (after, e, all, end) = take_name-split cs in
        (after, ground (arith, letter, e), ground (arith, letter, all), end)
    | inr other ↦ (c ∷ cs, rw other refl, rw other refl, ground (arith, other))
  ]

  -- A name at the front.
  name_at-Occurs :
      (cs : Text) → is_empty (name_at env cs) ≡ false → Occurs env true cs (name_at env cs)
  unfolding name_at
  name_at-Occurs [] h = cc
  name_at-Occurs (c ∷ cs) h = elim (Bool-cases (c == b'@')) [
    | inl here ↦
        let (after, e, all, end) = take_name-split cs in
        let sign : c ≡ b'@' = (==_iff c b'@').0 here in
        ([], after, ground (arith, here, sign, e), refl, h, ground (arith, here, all), end)
    | inr other ↦ absurd (ground arith)
  ]

  -- The same name, one character later.
  shift :
      (start : Bool) (c : ℕ) (cs name : Text)
      → Occurs env false cs name
      → Occurs env start (c ∷ cs) name
  shift start c cs name ([], after, e, opening, full, all, end) = absurd (cc)
  shift start c cs name (d ∷ before, after, e, opening, full, all, end) =
      (c ∷ d ∷ before, after, ap (λ t. c ∷ t) e, opening, full, all, end)

  behind :
      (start : Bool) (c : ℕ) (cs name : Text)
      → env.is_word c ≡ false
      → Occurs env true cs name
      → Occurs env start (c ∷ cs) name
  behind start c cs name h ([], after, e, opening, full, all, end) =
      (c ∷ [], after, ap (λ t. c ∷ t) e, ground (arith, h), full, all, end)
  behind start c cs name h (d ∷ before, after, e, opening, full, all, end) =
      (c ∷ d ∷ before, after, ap (λ t. c ∷ t) e, opening, full, all, end)

  match_at-Occurs :
      (start : Bool) (cs name : Text) (n : ℕ)
      → match_at env start cs ≡ some (name, n)
      → Occurs env start cs name
  unfolding match_at
  match_at-Occurs start [] name n h = absurd (cc)
  match_at-Occurs start (c ∷ cs) name n h =
      elim (Bool-cases (start && not (is_empty (name_at env (c ∷ cs))))) [
        | inl direct ↦
            let e : name_at env (c ∷ cs) ≡ name = ground arith in
            let first : start ≡ true = ground arith in
            subst (λ x. Occurs env start (c ∷ cs) x) e
              (subst (λ b. Occurs env b (c ∷ cs) (name_at env (c ∷ cs))) (sym first)
                (name_at-Occurs (c ∷ cs) (ground arith)))
        | inr later ↦
            let e : name_at env cs ≡ name = ground arith in
            subst (λ x. Occurs env start (c ∷ cs) x) e
              (behind start c cs (name_at env cs) (ground arith) (name_at-Occurs cs (ground arith)))
      ]

  All-shift :
      (start : Bool) (c : ℕ) (cs : Text) (names : List Text)
      → All (Occurs env false cs) names
      → All (Occurs env start (c ∷ cs)) names
  All-shift start c cs [] h = tt
  All-shift start c cs (name ∷ names) (h, hs) =
      (shift start c cs name h, All-shift start c cs names hs)

  match_all-Occurs :
      (start : Bool) (skip : ℕ) (cs : Text)
      → All (Occurs env start cs) (match_all env start skip cs)
  unfolding match_all
  match_all-Occurs start skip [] = tt
  match_all-Occurs start (suc k) (c ∷ cs) = All-shift start c cs _ (match_all-Occurs false k cs)
  match_all-Occurs start zero (c ∷ cs) =
      go (match_at env start (c ∷ cs)) refl
        λ k. All-shift start c cs _ (match_all-Occurs false k cs)
    where
      go :
          (r : Option (Text × ℕ))
          → match_at env start (c ∷ cs) ≡ r
          → ((k : ℕ) → All (Occurs env start (c ∷ cs)) (match_all env false k cs))
          → All (Occurs env start (c ∷ cs)) (elim r [
            | none ↦ match_all env false 0 cs
            | some (name, zero) ↦ match_all env false 0 cs
            | some (name, suc k) ↦ name ∷ match_all env false k cs
          ])
      go none e later = later 0
      go (some (name, zero)) e later = later 0
      go (some (name, suc k)) e later = (match_at-Occurs start (c ∷ cs) name (suc k) e, later k)

  -- The names in lower case.
  abbrev pub Named : Text → Text → Type 0
  Named content x = (name : Text) × (x ≡ env.to_lower name) × Occurs env true content name

  All-append_one :
      (content : Text) (seen : List Text) (x : Text)
      → All (Named content) seen
      → Named content x
      → All (Named content) (seen ++ x ∷ [])
  All-append_one content [] x h n = (n, tt)
  All-append_one content (y ∷ seen) x (k, h) n = (k, All-append_one content seen x h n)

  add_once-Named :
      (content : Text) (seen : List Text) (x : Text)
      → All (Named content) seen
      → Named content x
      → All (Named content) (add_once env seen x)
  unfolding add_once
  add_once-Named content seen x h n = elim (Bool-cases (any (λ y. text_eq y x) seen)) [
    | inl old ↦ rw old h
    | inr new ↦ rw new (All-append_one content seen x h n)
  ]

  collect-Named :
      (content : Text) (seen names : List Text)
      → All (Named content) seen
      → All (Occurs env true content) names
      → All (Named content) (collect env seen names)
  unfolding collect
  collect-Named content seen [] h k = h
  collect-Named content seen (name ∷ names) h (k, ks) =
      collect-Named content (add_once env seen (env.to_lower name)) names
        (add_once-Named content seen (env.to_lower name) h (name, refl, k)) ks

-- No text stands twice.
abbrev pub NoTwice : List Text → Type 0
NoTwice [] = Unit
NoTwice (x ∷ xs) = (any (λ y. text_eq y x) xs ≡ false) × NoTwice xs

text_eq_comm : (s t : Text) → text_eq s t ≡ text_eq t s
unfolding text_eq
text_eq_comm [] [] = refl
text_eq_comm [] (b ∷ t) = refl
text_eq_comm (a ∷ s) [] = refl
text_eq_comm (a ∷ s) (b ∷ t) = ground (arith, text_eq_comm s t)

NoTwice-append_one :
    (xs : List Text) (x : Text)
    → any (λ y. text_eq y x) xs ≡ false
    → NoTwice xs
    → NoTwice (xs ++ x ∷ [])
unfolding any
NoTwice-append_one [] x h n = (refl, tt)
NoTwice-append_one (y ∷ xs) x h (apart, n) = (
  ground (arith, any_append_one (λ z. text_eq z y) xs x, text_eq_comm x y),
  NoTwice-append_one xs x (ground arith) n,
)

collect-NoTwice :
    (env : Env) (seen names : List Text) → NoTwice seen → NoTwice (collect env seen names)
unfolding collect add_once
collect-NoTwice env seen [] n = n
collect-NoTwice env seen (name ∷ names) n =
    collect-NoTwice env (add_once env seen (env.to_lower name)) names
      (elim (Bool-cases (any (λ y. text_eq y (env.to_lower name)) seen)) [
        | inl old ↦ rw old n
        | inr new ↦ rw new (NoTwice-append_one seen (env.to_lower name) new n)
      ])

-- No name is extracted twice, and every one is, in lower case, a run of name characters as long as it
-- can be, behind an `@` at the front of the text or behind a character that is no word character.
pub extract_usernames_sound :
    (env : Env) (content : Text)
    → NoTwice (extract_usernames env content)
      × All (Named env content) (extract_usernames env content)
unfolding extract_usernames
extract_usernames_sound env content =
    let names = match_all env true 0 content in
    (
      collect-NoTwice env [] names tt,
      collect-Named env content [] names tt (match_all-Occurs env true 0 content),
    )
