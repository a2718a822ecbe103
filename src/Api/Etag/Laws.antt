-- ===== src/Api/Etag/Laws.antt =====
-- What the interceptor does to a body that carries its version.
use issueflow.Prelude.{
  ℕ, Text, text_eq, text_eq_sound, text_eq_refl, ◌≡◌, refl, arith, not, Bool, true, false, some,
  List, [], ◌∷◌, filter, find_one, any, Bool-cases, inl, inr,
}
use issueflow.Http.{if_match, version_number}
use issueflow.Http.RoundTrip.{if_match-print_etag}
use issueflow.Api.Etag.{
  Field, number, object, single, version_key, is_key, strip_version, intercept,
}

module _ {V : Type 0} where
  any-filter-not :
      (p : Text × Field V → Bool) (fs : List (Text × Field V))
      → any p (filter (λ f. not (p f)) fs) ≡ false
  unfolding any filter
  any-filter-not p [] = refl
  any-filter-not p (f ∷ fs) = ground (arith, any-filter-not p fs)

  find_one-filter-not :
      (p q : Text × Field V → Bool) (fs : List (Text × Field V))
      → ((f : Text × Field V) → q f ≡ true → p f ≡ false)
      → find_one q (filter (λ f. not (p f)) fs) ≡ find_one q fs
  unfolding find_one filter
  find_one-filter-not p q [] h = refl
  find_one-filter-not p q (f ∷ fs) h = ground (arith, h f, find_one-filter-not p q fs h)

  keys_apart :
      (key : Text) (f : Text × Field V)
      → text_eq key version_key ≡ false
      → is_key key f ≡ true
      → is_key version_key f ≡ false
  keys_apart key f apart h = elim (Bool-cases (is_key version_key f)) [
    | inr other ↦ other
    | inl same ↦
        let named = text_eq_sound f.0 key h in
        let version = text_eq_sound f.0 version_key same in cc (text_eq_refl version_key)
  ]

  -- An object with a numeric version is sent without it and with an ETag that is read as that version when
  -- it comes back as If-Match; every other field is sent as it was.
  pub intercept-version :
      (fields : List (Text × Field V)) (key other : Text) (n : ℕ)
      → text_eq other version_key ≡ false
      → find_one (is_key version_key) fields ≡ some (key, number n)
      → (rest : List (Text × Field V)) × ((intercept (single (object fields))).1
          ≡ single (object rest))
        × (if_match (intercept (single (object fields))).0 ≡ version_number n)
        × (any (is_key version_key) rest ≡ false)
        × (find_one (is_key other) rest ≡ find_one (is_key other) fields)
  unfolding intercept strip_version
  intercept-version fields key other n apart h = (
    filter (λ f. not (is_key version_key f)) fields,
    refl,
    rw h (if_match-print_etag n),
    any-filter-not (is_key version_key) fields,
    find_one-filter-not (is_key version_key) (is_key other) fields
        (λ f k. keys_apart other f apart k),
  )
