-- ===== src/Tests/Signing.antt =====
-- A library of tokens for the tests: it writes a payload as numbers and reads it back. And an environment
-- whose generated keys are new.
use issueflow.Prelude.{
  ℕ, zero, suc, ◌+◌, ◌≤◌, ◌≡◌, refl, ap, arith, false, Option, none, some, List, [], ◌∷◌, Text,
  contains,
}
use issueflow.Enums.{UserRole, admin, developer}
use issueflow.Entities.{Date}
use issueflow.Store.{Env}
use issueflow.Auth.{JwtPayload, TokenIssuer}
use issueflow.Api.Pipeline.{Verifier}
use issueflow.Api.Session.{ReadsBack}
use issueflow.History.Later.{FreshIds}
use issueflow.Tests.Samples.{env_at}

-- Each character behind a 1, a 0 at the end.
unfoldable write_text : Text → Text → Text
write_text [] rest = 0 ∷ rest
write_text (c ∷ cs) rest = 1 ∷ c ∷ write_text cs rest

abbrev more : ℕ → Option (Text × Text) → Option (Text × Text)
more c none = none
more c (some (t, rest)) = some (c ∷ t, rest)

unfoldable read_text : Text → Option (Text × Text)
read_text [] = none
read_text (zero ∷ rest) = some ([], rest)
read_text (suc n ∷ []) = none
read_text (suc n ∷ c ∷ rest) = more c (read_text rest)

read_text-write_text : (t rest : Text) → read_text (write_text t rest) ≡ some (t, rest)
unfolding read_text write_text
read_text-write_text [] rest = refl
read_text-write_text (c ∷ cs) rest = ap (more c) (read_text-write_text cs rest)

write_role : Option UserRole → ℕ
write_role none = 0
write_role (some admin) = 1
write_role (some developer) = 2

read_role : ℕ → Option UserRole
read_role zero = none
read_role (suc zero) = some admin
read_role (suc (suc n)) = some developer

read_role-write_role : (r : Option UserRole) → read_role (write_role r) ≡ r
unfolding read_role write_role
read_role-write_role none = refl
read_role-write_role (some admin) = refl
read_role-write_role (some developer) = refl

write_jti : Option Text → Text
write_jti none = 0 ∷ []
write_jti (some t) = 1 ∷ write_text t []

abbrev text_of : Option (Text × Text) → Option Text
text_of none = none
text_of (some (t, rest)) = some t

read_jti : Text → Option Text
read_jti [] = none
read_jti (zero ∷ rest) = none
read_jti (suc n ∷ rest) = text_of (read_text rest)

read_jti-write_jti : (o : Option Text) → read_jti (write_jti o) ≡ o
unfolding read_jti write_jti
read_jti-write_jti none = refl
read_jti-write_jti (some t) = ap text_of (read_text-write_text t [])

abbrev pub expiry : ℕ
expiry = 500

unfoldable pub sign : JwtPayload → Text
unfolding write_text write_role write_jti
sign p = p.sub ∷ write_role p.role ∷ write_text p.username (write_jti p.jti)

abbrev payload_from : ℕ → ℕ → Option (Text × Text) → Option JwtPayload
payload_from sub role none = none
payload_from sub role (some (username, rest)) = some (record {
  sub = sub;
  username = username;
  role = read_role role;
  jti = read_jti rest;
  exp = some expiry;
})

unfoldable pub read_token : Verifier
unfolding read_text read_role read_jti
read_token [] = none
read_token (sub ∷ []) = none
read_token (sub ∷ role ∷ rest) = payload_from sub role (read_text rest)

abbrev pub issuer : TokenIssuer
issuer = record { uuid = 7 ∷ []; expires_in = 60; sign_async = λ p n. sign p }

pub read_token-sign : ReadsBack issuer read_token expiry
unfolding sign read_token
read_token-sign p =
    rw (read_text-write_text p.username (write_jti p.jti))
      (rw (read_role-write_role p.role) (rw (read_jti-write_jti p.jti) refl))

abbrev pub past_all : List ℕ → ℕ
past_all [] = 1
past_all (n ∷ ns) = suc (n + past_all ns)

missing : (ids : List ℕ) (m : ℕ) → past_all ids ≤ m → contains ids m ≡ false
unfolding contains
missing [] m h = refl
missing (n ∷ ns) m h = ground (arith, missing ns m)

-- Keys past all that are in use.
abbrev pub fresh_at : Date → Env
fresh_at now = record (env_at now) { next_id = past_all }

pub fresh_at-FreshIds : (now : Date) → FreshIds (fresh_at now)
fresh_at-FreshIds now ids = missing ids (past_all ids) (omega arith)
