-- ===== src/Escalation/Tick.antt =====
-- One tick of the escalation as a change of each ticket by itself.
use mathlib.Core.List.{Memᴰ}
use mathlib.Core.Path.{ap₂}
use issueflow.Prelude.{
  ℕ, ◌+◌, ◌≡◌, refl, ap, ◌∙◌, true, false, Bool, Option, none, some, List, [], ◌∷◌, ◌++◌, arith,
  contains, filter, is_empty, Bool-cases, inl, inr, if◌then◌else◌, update_where,
}
use issueflow.Enums.{TicketPriority, critical, priority_eq}
use issueflow.Entities.{Ticket}
use issueflow.Store.{Db, Env, ◌>>=◌}
use issueflow.Audit.{for_each-record_entry-frame}
use issueflow.Escalation.{
  Buckets, PriorityBumps, next_priority, bucket_ticket, bucket_from, bucket_by_transition,
  bump_group, no_buckets, bump_groups, flip_critical, is_past_due, run_escalation, apply_buckets,
  audit_input,
}
use issueflow.Prelude.Rows.{update_where-none}
use issueflow.Tickets.Ids.{UniqueIds, UniqueIds-filter, found_again, ids_of}
use issueflow.Escalation.Bucketing.{hits, keys_at, flip_at, bucket_by_transition-Holds}

-- What a tick does to a ticket that is past due: the next priority, overdue once it is CRITICAL; a
-- CRITICAL ticket is only marked overdue. Each change takes the version one further.
unfoldable pub escalate_ticket : Ticket → Ticket
escalate_ticket t = elim (next_priority t.priority) [
  | some to ↦ record t {
    priority = to;
    is_overdue = if priority_eq to critical then true else t.is_overdue;
    version = t.version + 1;
  }
  | none ↦ if t.is_overdue then t else record t { is_overdue = true; version = t.version + 1 }
]

abbrev bump_one : TicketPriority → Ticket → Ticket
bump_one q r = elim (next_priority q) [
  | none ↦ r
  | some to ↦ record r {
    priority = to;
    is_overdue = if priority_eq to critical then true else r.is_overdue;
    version = r.version + 1;
  }
]

id-bump_one : (q : TicketPriority) (r : Ticket) → (bump_one q r).id ≡ r.id
id-bump_one q r = ground arith

bump_keys : List TicketPriority → Ticket → Ticket
bump_keys [] r = r
bump_keys (q ∷ qs) r = bump_keys qs (bump_one q r)

flip_one : Bool → Ticket → Ticket
flip_one false r = r
flip_one true r = record r { is_overdue = true; version = r.version + 1 }

bump_group-cons :
    (p : TicketPriority) (ids : List ℕ) (r : Ticket) (rs : List Ticket)
    → bump_group p ids (r ∷ rs)
      ≡ (if contains ids r.id then bump_one p r else r) ∷ bump_group p ids rs
unfolding bump_group update_where
bump_group-cons p ids r rs = ground arith

bump_groups-cons :
    (m : PriorityBumps) (r : Ticket) (rs : List Ticket)
    → bump_groups m (r ∷ rs) ≡ bump_keys (hits m r.id) r ∷ bump_groups m rs
unfolding bump_groups hits bump_keys
bump_groups-cons [] r rs = refl
bump_groups-cons ((q, g) ∷ m) r rs =
    rw (bump_group-cons q (ids_of g) r rs) (elim (Bool-cases (contains (ids_of g) r.id)) [
      | inl here ↦ rw here (
          bump_groups-cons m (bump_one q r) (bump_group q (ids_of g) rs)
          ∙ ap
              (λ n.
                bump_keys (hits m n) (bump_one q r) ∷ bump_groups m (bump_group q (ids_of g) rs))
              (id-bump_one q r))
      | inr other ↦ rw other (bump_groups-cons m r (bump_group q (ids_of g) rs))
    ])

flip_critical-cons :
    (ids : List ℕ) (r : Ticket) (rs : List Ticket)
    → flip_critical ids (r ∷ rs) ≡ flip_one (contains ids r.id) r ∷ flip_critical ids rs
unfolding flip_critical flip_one update_where contains
flip_critical-cons ids r rs = ground arith

id-bump_keys : (qs : List TicketPriority) (r : Ticket) → (bump_keys qs r).id ≡ r.id
unfolding bump_keys
id-bump_keys [] r = refl
id-bump_keys (q ∷ qs) r = id-bump_keys qs (bump_one q r) ∙ id-bump_one q r

-- A ticket in no bucket stays; one in its own bucket is escalated.
settled :
    (p : Bool) (r : Ticket) (o : Option Ticket)
    → o ≡ (if p then some r else none)
    → flip_one (flip_at o) (bump_keys (keys_at o) r) ≡ (if p then escalate_ticket r else r)
unfolding flip_one bump_keys escalate_ticket next_priority
settled true r o e = rw e (ground arith)
settled false r o e = rw e refl

no_rows : (m : PriorityBumps) → bump_groups m [] ≡ []
unfolding bump_groups bump_group update_where
no_rows [] = refl
no_rows ((q, g) ∷ m) = ground (arith, no_rows m)

flip_no_rows : (ids : List ℕ) → flip_critical ids [] ≡ []
unfolding flip_critical update_where
flip_no_rows ids = ground arith

module _ (p : Ticket → Bool) (m : PriorityBumps) (flips : List ℕ) where
  all_rows :
      (xs : List Ticket)
      → ((r : Ticket)
          → Memᴰ r xs
          → flip_one (contains flips r.id) (bump_keys (hits m r.id) r)
            ≡ (if p r then escalate_ticket r else r))
      → flip_critical flips (bump_groups m xs) ≡ update_where p escalate_ticket xs
  unfolding update_where
  all_rows [] each = rw (no_rows m) (flip_no_rows flips)
  all_rows (x ∷ xs) each = rw (bump_groups-cons m x xs) (
      rw (flip_critical-cons flips (bump_keys (hits m x.id) x) (bump_groups m xs)) (
        ap
          (λ n.
            flip_one (contains flips n) (bump_keys (hits m x.id) x)
            ∷ flip_critical flips (bump_groups m xs))
          (id-bump_keys (hits m x.id) x)
        ∙ ap₂ ◌∷◌ (each x (Memᴰ.head refl)) (all_rows xs (λ r k. each r (Memᴰ.tail k)))))

-- Without an audit row there is nothing in the buckets.
abbrev IsQuietWhenEmpty : Buckets → Type 0
IsQuietWhenEmpty b = is_empty b.audit_rows ≡ true → (b.priority_bumps ≡ []) × (b.critical_flip ≡ [])

is_empty-append_one : {A : Type 0} (xs : List A) (x : A) → is_empty (xs ++ x ∷ []) ≡ false
is_empty-append_one [] x = refl
is_empty-append_one (y ∷ ys) x = refl

bucket_ticket-quiet :
    (t : Ticket) (b : Buckets) → IsQuietWhenEmpty b → IsQuietWhenEmpty (bucket_ticket t b)
unfolding bucket_ticket next_priority
bucket_ticket-quiet t b q = grind (arith, is_empty-append_one)

bucket_from-quiet :
    (ts : List Ticket) (b : Buckets) → IsQuietWhenEmpty b → IsQuietWhenEmpty (bucket_from b ts)
unfolding bucket_from
bucket_from-quiet [] b q = q
bucket_from-quiet (t ∷ ts) b q =
    bucket_from-quiet ts (bucket_ticket t b) (bucket_ticket-quiet t b q)

apply_buckets-tickets :
    (env : Env) (b : Buckets) (s : Db)
    → (apply_buckets env b s).1 ≡ record s {
      tickets = flip_critical (ids_of b.critical_flip) (bump_groups b.priority_bumps s.tickets);
      audit_logs = (apply_buckets env b s).1.audit_logs;
    }
unfolding apply_buckets ◌>>=◌
apply_buckets-tickets env b s = ground (
  arith,
  for_each-record_entry-frame env (audit_input) b.audit_rows (record s {
    tickets = flip_critical (ids_of b.critical_flip) (bump_groups b.priority_bumps s.tickets);
  }),
)

nothing_to_do :
    (b : Buckets) (rows : List Ticket)
    → b.priority_bumps ≡ []
    → b.critical_flip ≡ []
    → flip_critical (ids_of b.critical_flip) (bump_groups b.priority_bumps rows) ≡ rows
unfolding flip_critical bump_groups
nothing_to_do b rows p q = simp (p, q)

quiet_buckets : (ts : List Ticket) → IsQuietWhenEmpty (bucket_by_transition ts)
unfolding bucket_by_transition
quiet_buckets ts = bucket_from-quiet ts no_buckets (λ e. (refl, refl))

module _ (env : Env) (s : Db) (unique : UniqueIds s.tickets) where
  abbrev overdue : List Ticket
  overdue = filter (is_past_due env.now) s.tickets

  abbrev buckets : Buckets
  buckets = bucket_by_transition overdue

  pub bulk_updates :
      flip_critical (ids_of buckets.critical_flip) (bump_groups buckets.priority_bumps s.tickets)
      ≡ update_where (is_past_due env.now) escalate_ticket s.tickets
  bulk_updates =
      all_rows (is_past_due env.now) buckets.priority_bumps (ids_of buckets.critical_flip) s.tickets
        each
    where
      each :
          (r : Ticket)
          → Memᴰ r s.tickets
          → flip_one
              (contains (ids_of buckets.critical_flip) r.id)
              (bump_keys (hits buckets.priority_bumps r.id) r)
            ≡ (if is_past_due env.now r then escalate_ticket r else r)
      each r k =
          let p = is_past_due env.now in
          let h = bucket_by_transition-Holds overdue r.id (UniqueIds-filter p s.tickets unique) in
          simp (h.bumps, h.flips) (settled (p r) r _ (found_again p s.tickets r unique k))

  -- If the ids of the tickets are unique, a tick changes exactly the tickets that are past due, each
  -- as `escalate_ticket` says, whatever buckets they fall into; no other table changes but the audit
  -- log.
  pub run_escalation_lem : (run_escalation env s).1 ≡ record s {
    tickets = update_where (is_past_due env.now) escalate_ticket s.tickets;
    audit_logs = (run_escalation env s).1.audit_logs;
  }
  unfolding run_escalation
  run_escalation_lem = elim (Bool-cases (is_empty overdue)) [
    | inl none_due ↦ ground (
      arith,
      none_due,
      update_where-none (is_past_due env.now) escalate_ticket s.tickets none_due,
    )
    | inr due ↦ elim (Bool-cases (is_empty buckets.audit_rows)) [
      | inl idle ↦
          let (no_bumps, no_flips) = quiet_buckets overdue idle in
          ground (arith, due, idle, bulk_updates, nothing_to_do buckets s.tickets no_bumps no_flips)
      | inr busy ↦ ground (arith, due, busy, bulk_updates, apply_buckets-tickets env buckets s)
    ]
  ]
