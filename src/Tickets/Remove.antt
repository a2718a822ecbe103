-- ===== src/Tickets/Remove.antt =====
-- tickets/tickets.service.ts: `softDelete` and `restore`.
use issueflow.Prelude.{ℕ, false, Option, none, some, [], ◌∷◌, find_one, update_where, if◌then◌else◌}
use issueflow.Enums.{ticket_entity, delete_action, restore_action}
use issueflow.Entities.{Ticket, is_null}
use issueflow.Store.{
  Env, Exec, not_found, version_mismatch, pure, raise, gets, or_raise, modify, transaction, ◌>>=◌,
  ◌>>◌,
}
use issueflow.Audit.{actor_of, input, insert_row, record_entry}
use issueflow.Tickets.Base.{Registered, is_ticket, is_live_ticket, assert_version_matches}
use issueflow.Tickets.Cascade.{run_cascade_soft_deletes, run_cascade_restores}

module _ (env : Env) (reg : Registered) where
  unfoldable pub save_deleted : Ticket → Exec Unit
  save_deleted row =
      let t = record row { deleted_at = some env.now } in
      if env.save_conflict t
      then raise (version_mismatch "Ticket" (some row.version))
      else modify λ s. record s {
        tickets =
            update_where (is_ticket row.id) (λ r. record t { version = env.ticket_version row t })
              s.tickets;
      }

  unfoldable pub delete_in_transaction : ℕ → Option ℕ → ℕ → Exec Unit
  unfolding save_deleted assert_version_matches run_cascade_soft_deletes
  delete_in_transaction id actor_user_id expected_version = do
    found ← gets (λ s. find_one (is_live_ticket id) s.tickets)
    row ← or_raise found (not_found ticket_entity id)
    assert_version_matches row.version expected_version "Ticket"
    save_deleted row
    run_cascade_soft_deletes env reg.cascade (row.id ∷ []) actor_user_id
    insert_row env (input delete_action ticket_entity row.id (actor_of actor_user_id) none)

  -- The ticket and its audit row go through the manager; the cascades do not.
  unfoldable pub soft_delete : ℕ → Option ℕ → ℕ → Exec Unit
  unfolding delete_in_transaction
  soft_delete id actor_user_id expected_version =
      transaction (λ s s'. record s' { tickets = s.tickets })
        (delete_in_transaction id actor_user_id expected_version)

  unfoldable pub bring_back : ℕ → Option ℕ → Ticket → Exec (Option Ticket)
  unfolding run_cascade_restores
  bring_back id actor_user_id t = do
    modify λ s. record s {
      tickets =
          update_where (is_ticket id)
            (λ r. record r {
              deleted_at = none;
              deleted_by_cascade = false;
              version = env.bulk_version r.version;
            })
            s.tickets;
    }
    run_cascade_restores env reg.cascade (t.id ∷ []) actor_user_id
    record_entry env (input restore_action ticket_entity t.id (actor_of actor_user_id) none)
    gets λ s. find_one (is_live_ticket id) s.tickets

  unfoldable pub restore : ℕ → Option ℕ → Exec (Option Ticket)
  unfolding bring_back
  restore id actor_user_id = do
    found ← gets (λ s. find_one (is_ticket id) s.tickets)
    t ← or_raise found (not_found ticket_entity id)
    if is_null t.deleted_at then pure (some t) else bring_back id actor_user_id t
