-- ===== src/History/Respects.antt =====
-- Actions after which the database is a later one, and how they are put together.
use issueflow.Prelude.{
  ◌≡◌, refl, Bool, true, false, Option, none, some, List, [], ◌∷◌, ◌++◌, if◌then◌else◌,
}
use issueflow.Store.{
  Db, Env, Exec, Error, Result, ok, err, pure, raise, gets, or_raise, raise_if, modify, transaction,
  for_each, ◌>>=◌, ◌>>◌,
}
use issueflow.Audit.{AuditRecordInput, audit_row, insert_row, record_entry}
use issueflow.History.Later.{Later, Later_refl, Later_trans, IsPrefix-append_one}

pub record Respects {A : Type 0} (m : Exec A) : Type 0 where
  pub at : (s : Db) → Later s (m s).1

module _ {A : Type 0} where
  pub Respects-pure : (a : A) → Respects (pure a)
  Respects-pure a = record { at = λ s. Later_refl s }

  pub Respects-raise : (e : Error) → Respects {A = A} (raise e)
  Respects-raise e = record { at = λ s. Later_refl s }

  pub Respects-gets : (f : Db → A) → Respects (gets f)
  Respects-gets f = record { at = λ s. Later_refl s }

  pub Respects-or_raise : (o : Option A) (e : Error) → Respects (or_raise o e)
  Respects-or_raise none e = record { at = λ s. Later_refl s }
  Respects-or_raise (some a) e = record { at = λ s. Later_refl s }

  pub Respects-reads : (m : Exec A) → ((s : Db) → (m s).1 ≡ s) → Respects m
  Respects-reads m h = record { at = λ s. rw (h s) (Later_refl s) }

  pub Respects-if :
      (b : Bool) (m n : Exec A) → Respects m → Respects n → Respects (if b then m else n)
  Respects-if true m n rm rn = rm
  Respects-if false m n rm rn = rn

  pub Respects-transaction_at :
      (undo : Db → Db → Db) (m : Exec A)
      → ((s : Db) → Later s (m s).1 → Later s (undo s (m s).1))
      → Respects m
      → Respects (transaction undo m)
  Respects-transaction_at undo m back rm = record {
    at = λ s. let (r, s') = m s in go s r s' (rm.at s) (back s);
  }
    where
      go :
          (s : Db) (r : Result A) (s' : Db)
          → Later s s'
          → (Later s s' → Later s (undo s s'))
          → Later s
              (let q : Result A × Db = elim r [ ok a ↦ (ok a, s') | err e ↦ (err e, undo s s') ] in
                q).1
      go s (ok a) s' l b = l
      go s (err e) s' l b = b l

  pub Respects-transaction :
      (undo : Db → Db → Db) (m : Exec A)
      → ((s s' : Db) → Later s s' → Later s (undo s s'))
      → Respects m
      → Respects (transaction undo m)
  Respects-transaction undo m back rm = Respects-transaction_at undo m (λ s. back s (m s).1) rm

pub Respects-raise_if : (b : Bool) (e : Error) → Respects (raise_if b e)
Respects-raise_if b e = record { at = λ s. Later_refl s }

pub Respects-modify : (f : Db → Db) → ((s : Db) → Later s (f s)) → Respects (modify f)
Respects-modify f h = record { at = h }

module _ {A B : Type 0} (m : Exec A) (f : A → Exec B) where
  -- At one state, with what the first action returned there.
  pub bind_later :
      (s : Db)
      → Later s (m s).1
      → ((a : A) (t : Db) → m s ≡ (ok a, t) → Later t (f a t).1)
      → Later s ((m >>= f) s).1
  unfolding ◌>>=◌
  bind_later s l k = go (m s).0 (m s).1 refl
    where
      go :
          (r : Result A) (t : Db)
          → m s ≡ (r, t)
          → Later s (let q : Result B × Db = elim r [ ok a ↦ f a t | err e ↦ (err e, t) ] in q).1
      go (ok a) t e = Later_trans s t (f a t).1 (rw e at l) (k a t e)
      go (err x) t e = rw e at l

  pub Respects-bind : Respects m → ((a : A) → Respects (f a)) → Respects (m >>= f)
  Respects-bind rm rf = record { at = λ s. bind_later s (rm.at s) (λ a t e. (rf a).at t) }

pub Respects-then :
    {B : Type 0} (m : Exec Unit) (n : Exec B) → Respects m → Respects n → Respects (m >> n)
Respects-then m n rm rn = Respects-bind m (λ u. n) rm (λ u. rn)

pub Respects-for_each :
    {A : Type 0} (body : A → Exec Unit) (xs : List A)
    → ((a : A) → Respects (body a))
    → Respects (for_each body xs)
unfolding for_each
Respects-for_each body [] h = Respects-pure tt
Respects-for_each body (x ∷ xs) h =
    Respects-then (body x) (for_each body xs) (h x) (Respects-for_each body xs h)

module _ (env : Env) (inp : AuditRecordInput) where
  pub Respects-insert_row : Respects (insert_row env inp)
  unfolding insert_row
  Respects-insert_row = record {
    at = λ s. go s (env.audit_accepts (audit_row env inp s.audit_logs));
  }
    where
      go :
          (s : Db) (b : Bool)
          → Later s
              (let q : Result Unit × Db =
                  if b
                  then (
                    ok tt,
                    record s { audit_logs = s.audit_logs ++ audit_row env inp s.audit_logs ∷ [] },
                  )
                  else (err Error.unexpected, s) in
                q).1
      go s true =
          let l = Later_refl s in
          record {
            users = l.users;
            distinct_users = l.distinct_users;
            tokens = l.tokens;
            joined = l.joined;
            projects = l.projects;
            tickets = l.tickets;
            comments = l.comments;
            attachments = l.attachments;
            audit_logs = IsPrefix-append_one s.audit_logs (audit_row env inp s.audit_logs);
          }
      go s false = Later_refl s

  pub Respects-record_entry : Respects (record_entry env inp)
  unfolding record_entry
  Respects-record_entry = record {
    at = λ s. let (r, t) = insert_row env inp s in go s r t (Respects-insert_row.at s);
  }
    where
      go :
          (s : Db) (r : Result Unit) (t : Db)
          → Later s t
          → Later s
              (let q : Result Unit × Db = elim r [ ok u ↦ (ok u, t) | err e ↦ (ok tt, t) ] in q).1
      go s (ok u) t l = l
      go s (err e) t l = l

-- A read that the rest of the action depends on: the rest runs at the same state.
pub Respects-gets_bind :
    {A B : Type 0} (f : Db → A) (k : A → Exec B)
    → ((s : Db) → Later s (k (f s) s).1)
    → Respects (gets f >>= k)
unfolding ◌>>=◌
Respects-gets_bind f k h = record { at = h }

pub modify_then :
    {B : Type 0} (f : Db → Db) (n : Exec B) (s : Db)
    → Later s (f s)
    → Respects n
    → Later s ((modify f >> n) s).1
modify_then f n s l rn = bind_later (modify f) (λ u. n) s l (λ u t e. rn.at t)

pub Respects-modify_then :
    {B : Type 0} (f : Db → Db) (n : Exec B)
    → ((s : Db) → Later s (f s))
    → Respects n
    → Respects (modify f >> n)
Respects-modify_then f n h rn = record { at = λ s. modify_then f n s (h s) rn }
