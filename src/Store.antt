-- ===== src/Store.antt =====
-- The database as the services see it, what they rely on outside the repository, and the actions
-- that read it, change it and fail.
use issueflow.Prelude.{
  ◌≡◌, ◌⊎◌, inl, inr, refl, ℕ, String, Text, Bool, Option, none, some, List, [], ◌∷◌, if◌then◌else◌,
}
use issueflow.Enums.{EntityType, TicketStatus}
use issueflow.Entities.{
  Date, User, Project, Ticket, Comment, Mention, TicketDependency, Attachment, InvalidatedToken,
  AuditLog,
}

-- One list of rows for each table, deleted rows included.
pub record Db : Type 0 where
  pub users : List User
  pub projects : List Project
  pub tickets : List Ticket
  pub comments : List Comment
  pub mentions : List Mention
  pub deps : List TicketDependency
  pub attachments : List Attachment
  pub audit_logs : List AuditLog
  pub tokens : List InvalidatedToken

-- What the code relies on and does not implement, for one call:
--   now: `new Date()` and the database's clock;
--   next_id: the generated key, from the keys in use;
--   ticket_version, comment_version: the version column after `save`, from the stored row and the
--     entity saved over it;
--   bulk_version: the version column after an UPDATE that does not set it;
--   save_conflict: whether `save` of this entity raises OptimisticLockVersionMismatchError;
--   audit_accepts: whether the database takes the row into `audit_logs`;
--   is_word: the character class [\p{L}\p{N}_]; to_lower, sql_lower: toLowerCase and LOWER;
--   hash, compare: bcrypt.
pub record Env : Type 0 where
  pub now : Date
  pub next_id : List ℕ → ℕ
  pub ticket_version : Ticket → Ticket → ℕ
  pub comment_version : Comment → Comment → ℕ
  pub bulk_version : ℕ → ℕ
  pub save_conflict : Ticket → Bool
  pub audit_accepts : AuditLog → Bool
  pub is_word : ℕ → Bool
  pub to_lower : Text → Text
  pub sql_lower : Text → Text
  pub hash : Text → Text
  pub compare : Text → Text → Bool

-- The exceptions: those of Nest by their class, and `unexpected` for any other error.
pub data Error : Type 0 where
  not_found : EntityType → ℕ → Error
  dependency_not_found : Error
  bad_request : String → Error
  status_backwards : (from to : TicketStatus) → Error
  forbidden : String → Error
  conflict : String → Error
  unresolved_blockers : List ℕ → Error
  version_mismatch : String → Option ℕ → Error
  unauthorized : String → Error
  precondition_required : String → Error
  unexpected : Error

pub data Result (A : Type 0) : Type 0 where
  ok : A → Result A
  err : Error → Result A

-- A service method: what was written before an exception stays written.
abbrev pub Exec : Type 0 → Type 0
Exec A = Db → Result A × Db

module _ {A : Type 0} where
  abbrev pub pure : A → Exec A
  pure a s = (ok a, s)

  abbrev pub raise : Error → Exec A
  raise e s = (err e, s)

  abbrev pub gets : (Db → A) → Exec A
  gets f s = (ok (f s), s)

  abbrev pub or_raise : Option A → Error → Exec A
  or_raise none e = raise e
  or_raise (some a) e = pure a

infixl 5 ◌>>=◌ ◌>>◌
unfoldable pub ◌>>=◌ : {A B : Type 0} → Exec A → (A → Exec B) → Exec B
◌>>=◌ m f s = let (r, s') = m s in elim r [ ok a ↦ f a s' | err e ↦ (err e, s') ]

abbrev pub ◌>>◌ : {A B : Type 0} → Exec A → Exec B → Exec B
m >> k = m >>= λ _. k

abbrev pub raise_if : Bool → Error → Exec Unit
raise_if c e s = (if c then err e else ok tt, s)

abbrev pub modify : (Db → Db) → Exec Unit
modify f s = (ok tt, f s)

-- `if (c) m`.
abbrev pub when : Bool → Exec Unit → Exec Unit
when c m s = if c then m s else (ok tt, s)

-- `dataSource.transaction(body)`: on an exception `undo` gives back the tables that the body
-- writes through its manager. What the body writes through other repositories stays.
abbrev pub transaction : {A : Type 0} → (Db → Db → Db) → Exec A → Exec A
transaction undo body s =
    let (r, s') = body s in elim r [ ok a ↦ (ok a, s') | err e ↦ (err e, undo s s') ]

-- `for (const x of xs) await body(x)`.
unfoldable pub for_each : {A : Type 0} → (A → Exec Unit) → List A → Exec Unit
for_each body [] = pure tt
for_each body (x ∷ xs) = body x >> for_each body xs

-- Inversion of an action that succeeded: what its first step returned and left.
pub data Bound {A B : Type 0} (m : Exec A) (f : A → Exec B) (s : Db) (r : Result B × Db)
    : Type 0 where
  bound : (a : A) (t : Db) → m s ≡ (ok a, t) → f a t ≡ r → Bound m f s r

pub >>=-eq-ok :
    {A B : Type 0} (m : Exec A) (f : A → Exec B) (s : Db) {b : B} {s' : Db}
    → (m >>= f) s ≡ (ok b, s')
    → Bound m f s (ok b, s')
unfolding ◌>>=◌
>>=-eq-ok {A} {B} m f s {b} {s'} h = go (m s) refl h
  where
    go :
        (r : Result A × Db)
        → m s ≡ r
        → (let (q, t) = r in elim q [ ok a ↦ f a t | err e ↦ (err e, t) ]) ≡ (ok b, s')
        → Bound m f s (ok b, s')
    go (ok a, t) e k = bound a t e k
    go (err x, t) e k = cc

-- Inversion of an action that failed: at its first step, or behind it.
pub >>=-eq-err :
    {A B : Type 0} (m : Exec A) (f : A → Exec B) (s : Db) {e : Error} {s' : Db}
    → (m >>= f) s ≡ (err e, s')
    → (m s ≡ (err e, s')) ⊎ ((a : A) × (t : Db) × (m s ≡ (ok a, t)) × (f a t ≡ (err e, s')))
unfolding ◌>>=◌
>>=-eq-err {A} {B} m f s {e} {s'} h = go (m s) refl h
  where
    go :
        (r : Result A × Db)
        → m s ≡ r
        → (let (q, t) = r in elim q [ ok a ↦ f a t | err x ↦ (err x, t) ]) ≡ (err e, s')
        → (m s ≡ (err e, s')) ⊎ ((a : A) × (t : Db) × (m s ≡ (ok a, t)) × (f a t ≡ (err e, s')))
    go (ok a, t) p k = inr (a, t, p, k)
    go (err x, t) p k = inl (cc)
