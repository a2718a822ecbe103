-- ===== src/History/Overdue.antt =====
-- Where the escalation leads.
use issueflow.Prelude.{ℕ, ◌≤◌, ◌≡◌, ap, ◌∙◌, arith, ◌==◌, true, some, find_one, update_where}
use issueflow.Prelude.Rows.{find_one-update_where_hit}
use issueflow.Enums.{critical}
use issueflow.Entities.{Ticket, Date}
use issueflow.Store.{Db, Env}
use issueflow.Tickets.Base.{is_ticket}
use issueflow.Escalation.{run_escalation, is_past_due, next_priority}
use issueflow.Escalation.Schedule.{handle}
use issueflow.Escalation.Tick.{escalate_ticket, run_escalation_lem}
use issueflow.History.Tables.{UniqueKeys}
use issueflow.History.Services.Escalation.{as_UniqueIds, run_escalation-Respects}

abbrev pub ticket_key : Ticket → ℕ
ticket_key t = t.id

id-escalate_ticket : (t : Ticket) → (escalate_ticket t).id ≡ t.id
unfolding escalate_ticket next_priority
id-escalate_ticket t = ground arith

-- Later on, it is still past due.
still_due :
    (now later : Date) (t : Ticket)
    → now ≤ later
    → is_past_due now t ≡ true
    → is_past_due later (escalate_ticket t) ≡ true
unfolding is_past_due escalate_ticket next_priority
still_due now later t h k = ground arith

-- Three ticks take the lowest priority to the highest, and the last marks it.
three_steps :
    (t : Ticket)
    → (let u = escalate_ticket (escalate_ticket (escalate_ticket t)) in
        (u.priority ≡ critical) × (u.is_overdue ≡ true))
unfolding escalate_ticket next_priority
three_steps t = ground arith

handle-run_escalation : (env : Env) (s : Db) → (handle env s).1 ≡ (run_escalation env s).1
unfolding handle
handle-run_escalation env s = ground arith

module _ (env : Env) (s : Db) (unique : UniqueKeys ticket_key s.tickets) where
  handle-tickets :
      (handle env s).1.tickets ≡ update_where (is_past_due env.now) escalate_ticket s.tickets
  handle-tickets =
      ap (λ (d : Db). d.tickets)
        (handle-run_escalation env s ∙ run_escalation_lem env s (as_UniqueIds s.tickets unique))

  handle-UniqueKeys : UniqueKeys ticket_key (handle env s).1.tickets
  handle-UniqueKeys =
      rw (handle-run_escalation env s) ((((run_escalation-Respects env).at s).tickets unique).0)

  handle-find_one :
      (id : ℕ) (t : Ticket)
      → find_one (is_ticket id) s.tickets ≡ some t
      → is_past_due env.now t ≡ true
      → find_one (is_ticket id) (handle env s).1.tickets ≡ some (escalate_ticket t)
  handle-find_one id t found due = rw handle-tickets (
      find_one-update_where_hit (is_ticket id) (is_past_due env.now) escalate_ticket
        (λ r. ap (λ n. n == id) (id-escalate_ticket r)) s.tickets found due)

-- A ticket that is past due is CRITICAL and overdue after three ticks at the latest, whatever its priority,
-- if the ids of the tickets are unique and the clock does not go back from tick to tick.
pub handle-critical :
    (first second third : Env) (s : Db) (id : ℕ) (t : Ticket)
    → UniqueKeys ticket_key s.tickets
    → first.now ≤ second.now
    → second.now ≤ third.now
    → find_one (is_ticket id) s.tickets ≡ some t
    → is_past_due first.now t ≡ true
    → (let s' = (handle third (handle second (handle first s).1).1).1 in
        (u : Ticket) × (find_one (is_ticket id) s'.tickets ≡ some u)
        × (u.priority ≡ critical)
        × (u.is_overdue ≡ true))
handle-critical first second third s id t unique before after found due =
    let s1 = (handle first s).1 in
    let s2 = (handle second s1).1 in
    let unique1 = handle-UniqueKeys first s unique in
    let due1 = still_due first.now second.now t before due in
    let due2 = still_due second.now third.now (escalate_ticket t) after due1 in
    let found1 = handle-find_one first s unique id t found due in
    let found2 = handle-find_one second s1 unique1 id (escalate_ticket t) found1 due1 in
    (
      escalate_ticket (escalate_ticket (escalate_ticket t)),
      handle-find_one third s2 (handle-UniqueKeys second s1 unique1) id
          (escalate_ticket (escalate_ticket t)) found2 due2,
      (three_steps t).0,
      (three_steps t).1,
    )
