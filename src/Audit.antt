-- ===== src/Audit.antt =====
-- audit-log/audit-log.service.ts and audit-log.helpers.ts: the append-only log.
use issueflow.Prelude.{
  refl, arith, ◌≡◌, ℕ, ◌==◌, ◌&&◌, ltb, Bool, true, Option, none, some, List, [], ◌∷◌, ◌++◌, map,
  filter, if◌then◌else◌,
}
use issueflow.Prelude.Order.{order_by}
use issueflow.Enums.{
  EntityType, AuditAction, ActorType, by_user, by_system, entity_eq, action_eq, actor_eq,
}
use issueflow.Entities.{Metadata, AuditLog}
use issueflow.Store.{for_each, ◌>>=◌, Db, Env, Exec, ok, err, unexpected, gets}

pub record ActorMeta : Type 0 where
  pub performed_by : Option ℕ
  pub actor : ActorType

unfoldable pub actor_of : Option ℕ → ActorMeta
actor_of actor_user_id = record {
  performed_by = actor_user_id;
  actor = elim actor_user_id [ none ↦ by_system | some n ↦ by_user ];
}

unfoldable pub system_actor : ActorMeta
system_actor = record { performed_by = none; actor = by_system }

pub record AuditRecordInput : Type 0 where
  pub action : AuditAction
  pub entity_type : EntityType
  pub entity_id : ℕ
  pub who : ActorMeta
  pub metadata : Option Metadata

abbrev pub input : AuditAction → EntityType → ℕ → ActorMeta → Option Metadata → AuditRecordInput
input action entity_type entity_id who metadata = record {
  action = action;
  entity_type = entity_type;
  entity_id = entity_id;
  who = who;
  metadata = metadata;
}

module _ (env : Env) where
  -- The row that an insert into `audit_logs` adds.
  unfoldable pub audit_row : AuditRecordInput → List AuditLog → AuditLog
  audit_row inp logs = record {
    id = env.next_id (map (λ r. r.id) logs);
    action = inp.action;
    entity_type = inp.entity_type;
    entity_id = inp.entity_id;
    performed_by = inp.who.performed_by;
    actor = inp.who.actor;
    metadata = inp.metadata;
    timestamp = env.now;
  }

  -- `repo.insert`: it raises when the database refuses the row.
  unfoldable pub insert_row : AuditRecordInput → Exec Unit
  insert_row inp s =
      let row = audit_row inp s.audit_logs in
      if env.audit_accepts row
      then (ok tt, record s { audit_logs = s.audit_logs ++ row ∷ [] })
      else (err unexpected, s)

  -- `AuditLogService.record`: the insert, with its exception caught.
  unfoldable pub record_entry : AuditRecordInput → Exec Unit
  record_entry inp s =
      let (r, s') = insert_row inp s in elim r [ ok u ↦ (ok u, s') | err e ↦ (ok tt, s') ]

  -- `record` always returns, and touches no table but the log.
  pub record_entry-frame :
      (inp : AuditRecordInput) (s : Db)
      → ((record_entry inp s).0 ≡ ok tt)
        × ((record_entry inp s).1 ≡ record s { audit_logs = (record_entry inp s).1.audit_logs })
  unfolding record_entry insert_row
  record_entry-frame inp s = ground arith

  -- A loop of `record` calls.
  pub for_each-record_entry-frame :
      {A : Type 0} (f : A → AuditRecordInput) (xs : List A) (s : Db)
      → ((for_each (λ x. record_entry (f x)) xs s).0 ≡ ok tt)
        × ((for_each (λ x. record_entry (f x)) xs s).1
            ≡ record s { audit_logs = (for_each (λ x. record_entry (f x)) xs s).1.audit_logs })
  unfolding for_each ◌>>=◌
  for_each-record_entry-frame f [] s = (refl, refl)
  for_each-record_entry-frame f (x ∷ xs) s =
      ground (
        arith,
        record_entry-frame (f x) s,
        for_each-record_entry-frame f xs (record_entry (f x) s).1,
      )

pub record AuditLogQuery : Type 0 where
  pub entity_type : Option EntityType
  pub entity_id : Option ℕ
  pub action : Option AuditAction
  pub actor : Option ActorType

-- A filter that is not given matches every row.
abbrev pub given : {A : Type 0} → Option A → (A → Bool) → Bool
given none test = true
given (some a) test = test a

unfoldable pub matches : AuditLogQuery → AuditLog → Bool
matches q r =
    given q.entity_type (λ t. entity_eq r.entity_type t)
    && given q.entity_id (λ i. r.entity_id == i)
    && given q.action (λ a. action_eq r.action a)
    && given q.actor (λ a. actor_eq r.actor a)

unfoldable pub find : AuditLogQuery → Exec (List AuditLog)
find q = gets λ s. order_by (λ a b. ltb b.timestamp a.timestamp) (filter (matches q) s.audit_logs)
