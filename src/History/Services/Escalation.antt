-- ===== src/History/Services/Escalation.antt =====
-- The nightly tick.
use issueflow.Prelude.{
  ℕ, ◌≡◌, arith, Bool, true, false, ◌||◌, List, [], ◌∷◌, filter, is_empty, if◌then◌else◌,
}
use issueflow.Entities.{Ticket}
use issueflow.Store.{Db, Env, Result, ok}
use issueflow.Tickets.Ids.{UniqueIds}
use issueflow.Escalation.{
  run_escalation, is_past_due, apply_buckets, bucket_by_transition, next_priority,
}
use issueflow.Escalation.Tick.{escalate_ticket, bulk_updates}
use issueflow.History.Tables.{UniqueKeys, Moves-update_where}
use issueflow.History.Later.{Later, Later_refl, TicketBecomes, Ticket-Becoming}
use issueflow.History.Respects.{
  Respects, Respects-pure, Respects-then, Respects-for_each, Respects-record_entry, modify_then,
}
use issueflow.History.Writes.{on_tickets}

pub as_UniqueIds : (xs : List Ticket) → UniqueKeys (λ t. t.id) xs → UniqueIds xs
as_UniqueIds [] u = tt
as_UniqueIds (x ∷ xs) u = (u.0, as_UniqueIds xs u.1)

escalated : (now : ℕ) (t : Ticket) → is_past_due now t ≡ true → TicketBecomes t (escalate_ticket t)
unfolding is_past_due escalate_ticket next_priority
escalated now t h = ground arith

module _ (env : Env) where
  applied :
      (s : Db)
      → Later s
          (apply_buckets env (bucket_by_transition (filter (is_past_due env.now) s.tickets)) s).1
  unfolding apply_buckets
  applied s =
      modify_then _ _ s
        (on_tickets s _ λ u. rw (bulk_updates env s (as_UniqueIds s.tickets u)) (
          Moves-update_where Ticket-Becoming (is_past_due env.now) escalate_ticket s.tickets
            (λ v r m h. escalated env.now r h) u))
        (Respects-then _ _ (Respects-for_each _ _ (λ row. Respects-record_entry env _))
          (Respects-pure _))

  pub run_escalation-Respects : Respects (run_escalation env)
  unfolding run_escalation
  run_escalation-Respects = record {
    at = λ s.
        let overdue = filter (is_past_due env.now) s.tickets in
        go s (is_empty overdue || is_empty (bucket_by_transition overdue).audit_rows);
  }
    where
      go :
          (s : Db) (b : Bool)
          → Later s
              (let q : Result ℕ × Db =
                  if b
                  then (ok 0, s)
                  else apply_buckets env
                      (bucket_by_transition (filter (is_past_due env.now) s.tickets))
                      s in
                q).1
      go s true = Later_refl s
      go s false = applied s
