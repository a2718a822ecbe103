-- ===== src/Mentions/Reading.antt =====
-- What the parser of mentions finds, said without the regular expression.
use issueflow.Prelude.{
  ℕ, zero, suc, ◌<◌, ◌≡◌, refl, arith, Text, text_eq, text_eq_sound, text_eq_refl, ◌&&◌, ◌||◌, not,
  Bool, true, false, some, List, [], ◌∷◌, ◌++◌, any, is_empty, length, Bool-cases, Option-cases,
  inl, inr,
}
use issueflow.Store.{Env}
use issueflow.Mentions.{
  is_name_char, take_name, name_at, match_at, match_all, add_once, collect, extract_usernames,
}

-- The last character of a text, if there is one, meets `p`.
abbrev pub last_is : (ℕ → Bool) → Text → Bool
last_is p [] = true
last_is p (c ∷ []) = p c
last_is p (c ∷ d ∷ cs) = last_is p (d ∷ cs)

-- The first one, if there is one.
abbrev pub first_is : (ℕ → Bool) → Text → Bool
first_is p [] = true
first_is p (c ∷ cs) = p c

abbrev pub every : (ℕ → Bool) → Text → Bool
every p [] = true
every p (c ∷ cs) = p c && every p cs

none_at_front :
    (env : Env) (after : Text)
    → first_is (λ c. not (is_name_char env c)) after ≡ true
    → take_name env after ≡ []
unfolding take_name
none_at_front env [] h = refl
none_at_front env (c ∷ cs) h = ground arith

pub any_append_one :
    (p : Text → Bool) (xs : List Text) (x : Text) → any p (xs ++ x ∷ []) ≡ (any p xs || p x)
unfolding any
any_append_one p [] x = ground arith
any_append_one p (y ∷ ys) x = ground (arith, any_append_one p ys x)

-- What has been seen stays, and every name is seen in lower case.
module _ (env : Env) (p : Text → Bool) where
  any-add_once :
      (seen : List Text) (x : Text) → any p seen ≡ true → any p (add_once env seen x) ≡ true
  unfolding add_once
  any-add_once seen x h = ground (arith, any_append_one p seen x)

  collect-seen : (seen xs : List Text) → any p seen ≡ true → any p (collect env seen xs) ≡ true
  unfolding collect
  collect-seen seen [] h = h
  collect-seen seen (x ∷ xs) h =
      collect-seen (add_once env seen (env.to_lower x)) xs (any-add_once seen (env.to_lower x) h)

module _ (env : Env) (name : Text) where
  abbrev lower : Text → Bool
  lower x = text_eq x (env.to_lower name)

  add_once-here : (seen : List Text) → any lower (add_once env seen (env.to_lower name)) ≡ true
  unfolding add_once
  add_once-here seen =
      ground
        (arith, any_append_one lower seen (env.to_lower name), text_eq_refl (env.to_lower name))

  collect-any :
      (seen xs : List Text)
      → any (λ x. text_eq x name) xs ≡ true
      → any lower (collect env seen xs) ≡ true
  unfolding collect any
  collect-any seen [] h = cc
  collect-any seen (x ∷ xs) h = elim (Bool-cases (text_eq x name)) [
    | inl same ↦
        rw (text_eq_sound x name same)
          (collect-seen env lower (add_once env seen (env.to_lower name)) xs (add_once-here seen))
    | inr other ↦ collect-any (add_once env seen (env.to_lower x)) xs (rw other at h)
  ]

module _ (env : Env) (at_sign : env.is_word b'@' ≡ false) (name after : Text)
    (full : is_empty name ≡ false) (letters : every (is_name_char env) name ≡ true)
    (ends : first_is (λ c. not (is_name_char env c)) after ≡ true) where
  abbrev rest : Text
  rest = b'@' ∷ (name ++ after)

  abbrev closed : Text → Bool
  closed b = last_is (λ c. not (is_name_char env c)) b

  take_name-append :
      (cs : Text) → every (is_name_char env) cs ≡ true → take_name env (cs ++ after) ≡ cs
  unfolding take_name
  take_name-append [] h = none_at_front env after ends
  take_name-append (c ∷ cs) h = ground (arith, take_name-append cs)

  name_at-rest : name_at env rest ≡ name
  unfolding name_at
  name_at-rest = take_name-append name letters

  -- A run of name characters ends before the last character of `w`.
  length-take_name :
      (w : Text)
      → is_empty w ≡ false
      → closed w ≡ true
      → length (take_name env (w ++ rest)) < length w
  unfolding take_name
  length-take_name [] h k = cc
  length-take_name (c ∷ []) h k = ground arith
  length-take_name (c ∷ d ∷ w) h k = ground (arith, length-take_name (d ∷ w) refl k)

  match_at-last :
      (start : Bool) (c : ℕ)
      → is_name_char env c ≡ false
      → match_at env start (c ∷ rest) ≡ some (name, suc (suc (length name)))
  unfolding match_at name_at take_name
  match_at-last start c h = ground (arith, name_at-rest)

  match_at-short :
      (start : Bool) (c d : ℕ) (w nm : Text) (j : ℕ)
      → closed (d ∷ w) ≡ true
      → match_at env start (c ∷ d ∷ (w ++ rest)) ≡ some (nm, suc j)
      → j < length (d ∷ w)
  unfolding match_at name_at
  match_at-short start c d w nm j k h =
      ground (arith, length-take_name (d ∷ w) refl k, length-take_name w)

  found :
      (b : Text) (start : Bool) (k : ℕ)
      → k < length b
      → closed b ≡ true
      → any (λ x. text_eq x name) (match_all env start k (b ++ rest)) ≡ true
  unfolding match_all any
  found [] start k l h = ground arith
  found (c ∷ []) start zero l h = ground (arith, match_at-last start c, text_eq_refl name)
  found (c ∷ []) start (suc k) l h = ground arith
  found (c ∷ d ∷ b) start (suc k) l h = found (d ∷ b) false k (omega arith) h
  found (c ∷ d ∷ b) start zero l h =
      elim (Option-cases (match_at env start (c ∷ d ∷ (b ++ rest)))) [
        | inl e ↦ ground (arith, found (d ∷ b) false 0 (omega arith) h)
        | inr ((nm, zero), e) ↦ ground (arith, found (d ∷ b) false 0 (omega arith) h)
        | inr ((nm, suc j), e) ↦
            ground (arith, found (d ∷ b) false j (match_at-short start c d b nm j h e) h)
      ]

  read :
      (before : Text)
      → closed before ≡ true
      → any (λ x. text_eq x name) (match_all env true 0 (before ++ rest)) ≡ true
  unfolding match_all match_at any
  read [] h = ground (arith, name_at-rest, text_eq_refl name)
  read (c ∷ b) h = found (c ∷ b) true 0 (omega arith) h

-- Where `@` is no word character: a run of name characters behind an `@` that stands at the front or
-- behind a character that no name has, followed by none, is one of the names that are extracted, in
-- lower case.
pub extract_usernames_complete :
    (env : Env) (before name after : Text)
    → env.is_word b'@' ≡ false
    → last_is (λ c. not (is_name_char env c)) before ≡ true
    → is_empty name ≡ false
    → every (is_name_char env) name ≡ true
    → first_is (λ c. not (is_name_char env c)) after ≡ true
    → any
        (λ x. text_eq x (env.to_lower name))
        (extract_usernames env (before ++ b'@' ∷ (name ++ after)))
      ≡ true
unfolding extract_usernames
extract_usernames_complete env before name after at_sign open_ full letters ends =
    collect-any env name [] (match_all env true 0 (before ++ b'@' ∷ (name ++ after)))
      (read env at_sign name after full letters ends before open_)
