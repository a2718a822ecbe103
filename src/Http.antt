-- ===== src/Http.antt =====
-- common/: the If-Match header, the ETag, the role guard.
pub mod RoundTrip
use Prim.Native.Nat.{◌/◌, ◌%◌}
use issueflow.Prelude.{
  ℕ, zero, suc, ◌+◌, ◌-◌, ◌*◌, ltb, leb, ◌==◌, ◌&&◌, Text, Bool, true, false, Option, none, some,
  List, [], ◌∷◌, ◌++◌, is_empty, any, if◌then◌else◌,
}
use issueflow.Enums.{UserRole, role_eq}
use issueflow.Store.{Result, ok, err, forbidden}

-- common/decorators/if-match.decorator.ts

pub data IfMatch : Type 0 where
  version_number : ℕ → IfMatch
  header_required malformed_header : IfMatch

unfoldable pub is_digit : ℕ → Bool
is_digit c = leb b'0' c && leb c b'9'

-- `(\d+)"$` behind the opening quote, and `parseInt` of the digits: `value` is what they stand for
-- so far, `seen` says that there was one.
unfoldable pub parse_digits : ℕ → Bool → Text → Option ℕ
unfolding is_digit
parse_digits value seen [] = none
parse_digits value seen (c ∷ cs) =
    let rest = parse_digits (value * 10 + (c - b'0')) true cs in
    if is_digit c then rest else if (c == b'"') && (seen && is_empty cs) then some value else none

-- `"(\d+)"$`
unfoldable pub parse_quoted : Text → Option ℕ
unfolding parse_digits
parse_quoted [] = none
parse_quoted (c ∷ cs) = if c == b'"' then parse_digits 0 false cs else none

-- /^(?:W\/)?"(\d+)"$/
unfoldable pub parse_etag : Text → Option ℕ
unfolding parse_quoted
parse_etag (a ∷ b ∷ cs) =
    if (a == b'W') && (b == b'/') then parse_quoted cs else parse_quoted (a ∷ b ∷ cs)
parse_etag cs = parse_quoted cs

-- An absent header and an empty one are both falsy.
unfoldable pub if_match : Option Text → IfMatch
unfolding parse_etag
if_match none = header_required
if_match (some raw) =
    if is_empty raw
    then header_required
    else elim (parse_etag raw) [ none ↦ malformed_header | some n ↦ version_number n ]

-- The decimal digits of `${version}`, by a number of digits that is enough.
unfoldable pub digits_within : ℕ → ℕ → Text
digits_within zero n = []
digits_within (suc fuel) n =
    let front = digits_within fuel (n / 10) in
    (if ltb n 10 then [] else front) ++ (b'0' + n % 10) ∷ []

unfoldable pub print_number : ℕ → Text
unfolding digits_within
print_number n = digits_within (n + 1) n

-- `W/"${version}"`
unfoldable pub print_etag : ℕ → Text
unfolding print_number
print_etag version = b'W' ∷ b'/' ∷ b'"' ∷ (print_number version ++ b'"' ∷ [])

-- common/guards/roles.guard.ts
unfoldable pub can_activate : Option (List UserRole) → Option UserRole → Result Bool
can_activate none user_role = ok true
can_activate (some []) user_role = ok true
can_activate (some (r ∷ rs)) none = err (forbidden "Insufficient role")
can_activate (some (r ∷ rs)) (some role) =
    if any (λ q. role_eq q role) (r ∷ rs) then ok true else err (forbidden "Insufficient role")
