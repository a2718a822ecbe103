-- ===== src/Tests/Escalating.antt =====
-- The escalation, the cascades and the assignment on the database of the samples.
use mathlib.Core.List.{Memᴰ}
use issueflow.Prelude.{◌≡◌, refl, true, false, some, [], ◌∷◌, contains, update_where, filter}
use issueflow.Prelude.Order
use issueflow.Enums.{critical}
use issueflow.Entities.{Ticket, User, Attachment}
use issueflow.Store.{ok}
use issueflow.Tickets.Ids.{UniqueIds}
use issueflow.Tickets.Cascade.{cascade_soft_delete_for_project, cascade_restore_for_project}
use issueflow.Tickets.Cascade.RoundTrip.{cascade_restore_for_project-cascade_soft_delete, live_in}
use issueflow.Escalation
use issueflow.Escalation.{run_escalation, is_past_due}
use issueflow.Escalation.Tick.{run_escalation_lem, escalate_ticket}
use issueflow.AutoAssign
use issueflow.AutoAssign.{pick_assignee}
use issueflow.AutoAssign.Fairness.{pick_assignee-IsFair, IsFair}
use issueflow.Attachments.{cascade_soft_delete_attachments, cascade_restore_attachments}
use issueflow.Attachments.RoundTrip.{cascade_restore-cascade_soft_delete}
use issueflow.App.{app}
use issueflow.Tests.Samples.{env_at, first, second, third, db}

distinct_ids : UniqueIds db.tickets
unfolding contains
distinct_ids = (refl, (refl, (refl, tt)))

run_escalation_example : (run_escalation (env_at 100) db).1 ≡ record db {
  tickets = update_where (is_past_due 100) escalate_ticket db.tickets;
  audit_logs = (run_escalation (env_at 100) db).1.audit_logs;
}
run_escalation_example = run_escalation_lem (env_at 100) db distinct_ids

escalated :
    update_where (is_past_due 100) escalate_ticket db.tickets
    ≡ first ∷ record second { priority = critical; is_overdue = true; version = 2 } ∷ third ∷ []
unfolding update_where escalate_ticket is_past_due Escalation.next_priority
escalated = refl

no_cascade_before :
    (t : Ticket) → Memᴰ t db.tickets → t.project_id ≡ 1 → t.deleted_by_cascade ≡ false
no_cascade_before t (Memᴰ.head e) own = rw e refl
no_cascade_before t (Memᴰ.tail (Memᴰ.head e)) own = rw e refl
no_cascade_before t (Memᴰ.tail (Memᴰ.tail (Memᴰ.head e))) own = rw e refl
no_cascade_before t (Memᴰ.tail (Memᴰ.tail (Memᴰ.tail m))) own = elim m [ ]

cascade_restore_for_project_example :
    (cascade_restore_for_project
      (env_at 200)
      (app (env_at 200)).cascade
      1
      (some 2)
      (cascade_soft_delete_for_project
        (env_at 100)
        (app (env_at 100)).cascade
        1
        (some 1)
        db).1).1.tickets
    ≡ update_where (live_in 1) (λ t. record t { version = t.version }) db.tickets
cascade_restore_for_project_example =
    cascade_restore_for_project-cascade_soft_delete (env_at 100) (env_at 200) 1 (some 1) (some 2) db
      distinct_ids no_cascade_before

picks_bob : pick_assignee 1 db ≡ (ok (some 2), db)
unfolding pick_assignee AutoAssign.workload Order.order_by filter AutoAssign.is_candidate
    AutoAssign.comes_before AutoAssign.load Order.insert_by
picks_bob = refl

pick_assignee_example : (u : User) × (u.id ≡ 2) × IsFair 1 db u
pick_assignee_example = pick_assignee-IsFair 1 db 2 picks_bob

no_attachment_before :
    (a : Attachment)
    → Memᴰ a db.attachments
    → contains (1 ∷ []) a.ticket_id ≡ true
    → a.deleted_by_cascade ≡ false
no_attachment_before a (Memᴰ.head e) own = rw e refl
no_attachment_before a (Memᴰ.tail m) own = elim m [ ]

attachments_cascade_restore_example :
    (cascade_restore_attachments
      (env_at 100)
      (1 ∷ [])
      (some 2)
      (cascade_soft_delete_attachments (env_at 100) (1 ∷ []) (some 1) db).1).1.attachments
    ≡ db.attachments
attachments_cascade_restore_example =
    cascade_restore-cascade_soft_delete (env_at 100) (1 ∷ []) (some 1) (some 2) db
      no_attachment_before
