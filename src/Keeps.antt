-- ===== src/Keeps.antt =====
-- Actions that leave a part of the database alone, whether they return or fail.
use issueflow.Prelude.{◌≡◌, refl, ◌∙◌, Bool, true, false, if◌then◌else◌, List, [], ◌∷◌, ap}
use issueflow.Entities.{AuditLog}
use issueflow.Store.{gets, modify, Result, Db, Env, Exec, ok, err, ◌>>=◌, for_each, pure}
use issueflow.Audit.{AuditRecordInput, record_entry, record_entry-frame}

-- `view` is the same before and after.
pub record Keeps {A B : Type 0} (view : Db → B) (m : Exec A) : Type 0 where
  pub at : (s : Db) → view (m s).1 ≡ view s

module _ {B : Type 0} {view : Db → B} where
  pub Keeps-pure : {A : Type 0} (a : A) → Keeps view (pure a)
  Keeps-pure a = record { at = λ s. refl }

  pub Keeps-bind :
      {A C : Type 0} (m : Exec A) (f : A → Exec C)
      → Keeps view m
      → ((a : A) → Keeps view (f a))
      → Keeps view (m >>= f)
  unfolding ◌>>=◌
  Keeps-bind {A} {C} m f km kf = record { at = λ s. let (r, s') = m s in go r s' ∙ km.at s }
    where
      go :
          (r : Result A) (t : Db)
          → view (let q : Result C × Db = elim r [ ok a ↦ f a t | err e ↦ (err e, t) ] in q).1
            ≡ view t
      go (ok a) t = (kf a).at t
      go (err e) t = refl

  pub Keeps-if :
      {A : Type 0} (b : Bool) (m n : Exec A)
      → Keeps view m
      → Keeps view n
      → Keeps view (if b then m else n)
  Keeps-if true m n km kn = km
  Keeps-if false m n km kn = kn

  pub Keeps-for_each :
      {A : Type 0} (body : A → Exec Unit) (xs : List A)
      → ((a : A) → Keeps view (body a))
      → Keeps view (for_each body xs)
  unfolding for_each
  Keeps-for_each body [] k = Keeps-pure tt
  Keeps-for_each body (x ∷ xs) k = Keeps-bind (body x) _ (k x) (λ u. Keeps-for_each body xs k)

-- `record` keeps every table but the log.
pub Keeps-record_entry :
    {B : Type 0} {view : Db → B} (env : Env) (inp : AuditRecordInput)
    → ((s : Db) (logs : List AuditLog) → view (record s { audit_logs = logs }) ≡ view s)
    → Keeps view (record_entry env inp)
Keeps-record_entry {B} {view} env inp k = record {
  at = λ s. ap view (record_entry-frame env inp s).1 ∙ k s (record_entry env inp s).1.audit_logs;
}

module _ {B : Type 0} {view : Db → B} where
  pub Keeps-gets : {A : Type 0} (f : Db → A) → Keeps view (gets f)
  Keeps-gets f = record { at = λ s. refl }

  pub Keeps-modify : (f : Db → Db) → ((s : Db) → view (f s) ≡ view s) → Keeps view (modify f)
  Keeps-modify f k = record { at = k }

  -- The loop of audit rows at the end of a cascade.
  pub Keeps-audit_rows :
      {A : Type 0} (env : Env) (f : A → AuditRecordInput) (xs : List A)
      → ((s : Db) (logs : List AuditLog) → view (record s { audit_logs = logs }) ≡ view s)
      → Keeps view (for_each (λ x. record_entry env (f x)) xs)
  Keeps-audit_rows env f xs k = Keeps-for_each _ xs (λ x. Keeps-record_entry env (f x) k)
