-- ===== src/Api/Etag.antt =====
-- common/interceptors/etag.interceptor.ts. A body is an array, an object or another value; a field
-- is a number or another value. What the other values are does not matter here: `V`.
pub mod Laws
use issueflow.Prelude.{
  ℕ, Text, text_eq, not, Bool, true, false, Option, none, some, List, [], ◌∷◌, map, filter,
  find_one,
}
use issueflow.Http.{print_etag}

pub data Field (V : Type 0) : Type 0 where
  number : ℕ → Field V
  other_field : V → Field V

-- An object is the list of its own fields.
pub data Value (V : Type 0) : Type 0 where
  object : List (Text × Field V) → Value V
  other_value : V → Value V

pub data Sent (V : Type 0) : Type 0 where
  array : List (Value V) → Sent V
  single : Value V → Sent V

-- "version"
abbrev pub version_key : Text
version_key = b'v' ∷ b'e' ∷ b'r' ∷ b's' ∷ b'i' ∷ b'o' ∷ b'n' ∷ []

abbrev header_of : Option ℕ → Option Text
header_of none = none
header_of (some n) = some (print_etag n)

module _ {V : Type 0} where
  abbrev pub is_key : Text → Text × Field V → Bool
  is_key key f = text_eq f.0 key

  unfoldable pub strip_version : Value V → Value V
  strip_version (other_value v) = other_value v
  strip_version (object fields) = object (filter (λ f. not (is_key version_key f)) fields)

  -- `typeof version === 'number'`.
  abbrev number_of : Option (Text × Field V) → Option ℕ
  number_of none = none
  number_of (some (key, number n)) = some n
  number_of (some (key, other_field v)) = none

  -- The header that is set, and the body that is sent on.
  unfoldable pub intercept : Sent V → Option Text × Sent V
  unfolding strip_version
  intercept (array items) = (none, array (map strip_version items))
  intercept (single (object fields)) = (
    header_of (number_of (find_one (is_key version_key) fields)),
    single (strip_version (object fields)),
  )
  intercept (single (other_value v)) = (none, single (other_value v))
