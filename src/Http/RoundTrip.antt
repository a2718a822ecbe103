-- ===== src/Http/RoundTrip.antt =====
-- The ETag that a response carries, given back as If-Match.
use Prim.Native.Nat.{◌/◌, ◌%◌}
use issueflow.Prelude.Rows.{append_assoc}
use issueflow.Prelude.{
  ℕ, zero, suc, ◌+◌, ◌*◌, ◌<◌, ◌≤◌, ◌≡◌, refl, arith, ltb, Text, Bool, true, false, some, [], ◌∷◌,
  ◌++◌, Bool-cases, inl, inr, ◌∙◌, ap,
}
use issueflow.Http.{
  version_number, is_digit, parse_digits, parse_quoted, parse_etag, if_match, digits_within,
  print_number, print_etag,
}

-- One digit read.
read_digit :
    (value d : ℕ) (seen : Bool) (rest : Text)
    → d < 10
    → parse_digits value seen ((b'0' + d) ∷ rest) ≡ parse_digits (value * 10 + d) true rest
unfolding parse_digits is_digit
read_digit value d seen rest h = ground arith

-- The digits of a number are read as that number.
read_number :
    (fuel n : ℕ) (seen : Bool) (rest : Text)
    → n < fuel
    → parse_digits 0 seen (digits_within fuel n ++ rest) ≡ parse_digits n true rest
unfolding digits_within
read_number zero n seen rest h = grind arith
read_number (suc fuel) n seen rest h = elim (Bool-cases (ltb n 10)) [
  | inl small ↦
      let one : n < 10 = ground arith in
      rw small (
        read_digit 0 (n % 10) seen rest (omega arith)
        ∙ ap (λ k. parse_digits k true rest) (omega arith))
  | inr large ↦
      let more : 10 ≤ n = ground arith in
      rw large (
        ap (parse_digits 0 seen) (append_assoc (digits_within fuel (n / 10)) _ rest)
        ∙ read_number fuel (n / 10) seen ((b'0' + n % 10) ∷ rest) (omega arith)
        ∙ read_digit (n / 10) (n % 10) true rest (omega arith)
        ∙ ap (λ k. parse_digits k true rest) (omega arith))
]

-- The ETag that a response with a version carries is read as that version when it comes back as
-- the If-Match header of a request.
pub if_match-print_etag :
    (version : ℕ) → if_match (some (print_etag version)) ≡ version_number version
unfolding if_match print_etag parse_etag parse_quoted print_number
if_match-print_etag version =
    let read : parse_digits 0 false (print_number version ++ b'"' ∷ []) ≡ some version =
      read_number (version + 1) version false (b'"' ∷ []) (omega arith)
      ∙ unfold parse_digits is_digit in refl in
    ground (arith, read)
