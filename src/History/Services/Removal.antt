-- ===== src/History/Services/Removal.antt =====
-- Tickets deleted and restored, alone or with their project, and what hangs on them.
use issueflow.Prelude.{
  ℕ, ◌≡◌, refl, arith, Bool, true, false, Option, none, some, List, [], ◌∷◌, is_empty, find_one,
  update_where, if◌then◌else◌,
}
use issueflow.Enums.{ticket_entity}
use issueflow.Entities.{Ticket}
use issueflow.Store.{
  Db, Env, ok, raise, or_raise, not_found, version_mismatch, gets, modify, for_each,
}
use issueflow.App.{app}
use issueflow.Tickets.Base.{is_ticket, is_live_ticket, assert_version_matches}
use issueflow.Tickets.Cascade.{
  run_cascade_soft_deletes, run_cascade_restores, run_handlers, registered,
  record_cascade_audit_rows, mark_deleted, mark_restored, cascade_soft_delete_for_project,
  cascade_restore_for_project,
}
use issueflow.Tickets.Remove
use issueflow.History.Tables.{Moves-update_where, Moves-save}
use issueflow.History.Later.{Later, Later_refl, TicketBecomes, Ticket-Becoming}
use issueflow.History.Respects.{
  Respects, Respects-pure, Respects-gets, Respects-or_raise, Respects-if, Respects-bind,
  Respects-then, Respects-modify_then, Respects-for_each, Respects-record_entry,
  Respects-insert_row, Respects-transaction_at, bind_later,
}
use issueflow.History.Ends.{delete_in_transaction-Keeps}
use issueflow.History.Writes.{on_tickets, undo_tickets}
use issueflow.History.Services.Reading.{version_matches-Respects}
use issueflow.History.Services.Attachments.{
  attachments_deleted-Respects, attachments_restored-Respects,
}
use issueflow.History.Services.Dependencies.{
  dependencies_deleted-Respects, dependencies_restored-Respects,
}
use issueflow.History.Services.Comments.{comments_deleted-Respects, comments_restored-Respects}

module _ (env : Env) where
  cascade_deletes-Respects :
      (ids : List ℕ) (actor : Option ℕ)
      → Respects (run_cascade_soft_deletes env (app env).cascade ids actor)
  unfolding run_cascade_soft_deletes run_handlers registered app for_each
  cascade_deletes-Respects ids actor = Respects-if (is_empty ids) _ _ (Respects-pure tt) (
      Respects-then _ _ (comments_deleted-Respects env ids actor) (
        Respects-then _ _ (dependencies_deleted-Respects env ids actor)
          (Respects-then _ _ (attachments_deleted-Respects env ids actor) (Respects-pure tt))))

  cascade_restores-Respects :
      (ids : List ℕ) (actor : Option ℕ)
      → Respects (run_cascade_restores env (app env).cascade ids actor)
  unfolding run_cascade_restores run_handlers registered app for_each
  cascade_restores-Respects ids actor = Respects-if (is_empty ids) _ _ (Respects-pure tt) (
      Respects-then _ _ (comments_restored-Respects env ids actor) (
        Respects-then _ _ (dependencies_restored-Respects env ids actor)
          (Respects-then _ _ (attachments_restored-Respects env ids actor) (Respects-pure tt))))

  deletion :
      (d : Option ℕ) (b : Bool) (n : ℕ) (t : Ticket)
      → TicketBecomes t (record t { deleted_at = d; deleted_by_cascade = b; version = n })
  deletion d b n t = ground arith

  pub project_deletes-Respects :
      (project_id : ℕ) (actor : Option ℕ)
      → Respects (cascade_soft_delete_for_project env (app env).cascade project_id actor)
  unfolding cascade_soft_delete_for_project mark_deleted record_cascade_audit_rows
  project_deletes-Respects project_id actor = Respects-bind _ _ (Respects-gets _) λ live.
      Respects-if _ _ _ (Respects-pure tt) (
        Respects-modify_then _ _
          (λ s. on_tickets s _ (
            Moves-update_where Ticket-Becoming _ _ s.tickets
              (λ u r m h. deletion (some env.now) true _ r)))
          (Respects-then _ _ (cascade_deletes-Respects _ actor)
            (Respects-for_each _ _ (λ id. Respects-record_entry env _))))

  pub project_restores-Respects :
      (project_id : ℕ) (actor : Option ℕ)
      → Respects (cascade_restore_for_project env (app env).cascade project_id actor)
  unfolding cascade_restore_for_project mark_restored record_cascade_audit_rows
  project_restores-Respects project_id actor = Respects-bind _ _ (Respects-gets _) λ live.
      Respects-if _ _ _ (Respects-pure tt) (
        Respects-modify_then _ _
          (λ s.
            on_tickets s _ (
              Moves-update_where Ticket-Becoming _ _ s.tickets
                (λ u r m h. deletion none false _ r)))
          (Respects-then _ _ (cascade_restores-Respects _ actor)
            (Respects-for_each _ _ (λ id. Respects-record_entry env _))))

  delete_later :
      (id : ℕ) (row : Ticket) (s : Db)
      → find_one (is_live_ticket id) s.tickets ≡ some row
      → Later s (Remove.save_deleted env (app env) row s).1
  unfolding Remove.save_deleted
  delete_later id row s found = go (env.save_conflict (record row { deleted_at = some env.now }))
    where
      go :
          (b : Bool)
          → Later s
              ((if b
                  then raise (version_mismatch "Ticket" (some row.version))
                  else modify λ s. record s {
                    tickets =
                        update_where
                          (is_ticket row.id)
                          (λ r. record row {
                            deleted_at = some env.now;
                            version =
                                env.ticket_version row (record row { deleted_at = some env.now });
                          })
                          s.tickets;
                  })
                s).1
      go true = Later_refl s
      go false = on_tickets s _ (
          Moves-save Ticket-Becoming (is_live_ticket id) row.id _ s.tickets found refl
            (deletion (some env.now) row.deleted_by_cascade _ row))

  -- The row that the first steps of a delete have found.
  row_found :
      (id version : ℕ) (s t t' t'' : Db) (o : Option Ticket) (row : Ticket)
      → gets (λ s. find_one (is_live_ticket id) s.tickets) s ≡ (ok o, t)
      → or_raise o (not_found ticket_entity id) t ≡ (ok row, t')
      → assert_version_matches row.version version "Ticket" t' ≡ (ok tt, t'')
      → find_one (is_live_ticket id) t''.tickets ≡ some row
  unfolding assert_version_matches
  row_found id version s t t' t'' none row e e' e'' = ground arith
  row_found id version s t t' t'' (some r) row e e' e'' = ground arith

  pub delete_ticket-Respects :
      (id : ℕ) (actor : Option ℕ) (version : ℕ)
      → Respects (Remove.soft_delete env (app env) id actor version)
  unfolding Remove.soft_delete Remove.delete_in_transaction
  delete_ticket-Respects id actor version =
      Respects-transaction_at (λ s s'. record s' { tickets = s.tickets }) _
        (λ s l. undo_tickets s _ l ((delete_in_transaction-Keeps env id actor version).at s))
        (record {
          at = λ s.
              bind_later _ _ s ((Respects-gets (λ d. find_one (is_live_ticket id) d.tickets)).at s)
                λ o t e. bind_later _ _ t ((Respects-or_raise o _).at t) λ row t' e'.
                  bind_later _ _ t' ((version_matches-Respects row.version version "Ticket").at t')
                    λ u t'' e''.
                      bind_later _ _ t''
                        (delete_later id row t'' (row_found id version s t t' t'' o row e e' e''))
                        λ v t3 e3.
                          (Respects-then _ _ (cascade_deletes-Respects (row.id ∷ []) actor)
                              (Respects-insert_row env _)).at
                            t3;
        })

  bring_back-Respects :
      (id : ℕ) (actor : Option ℕ) (t : Ticket)
      → Respects (Remove.bring_back env (app env) id actor t)
  unfolding Remove.bring_back
  bring_back-Respects id actor t =
      Respects-modify_then _ _
        (λ s.
          on_tickets s _
            (Moves-update_where Ticket-Becoming _ _ s.tickets (λ u r m h. deletion none false _ r)))
        (Respects-then _ _ (cascade_restores-Respects (t.id ∷ []) actor)
          (Respects-then _ _ (Respects-record_entry env _) (Respects-gets _)))

  pub restore_ticket-Respects :
      (id : ℕ) (actor : Option ℕ) → Respects (Remove.restore env (app env) id actor)
  unfolding Remove.restore
  restore_ticket-Respects id actor = Respects-bind _ _ (Respects-gets _) λ found.
      Respects-bind _ _ (Respects-or_raise found _)
        λ t. Respects-if _ _ _ (Respects-pure (some t)) (bring_back-Respects id actor t)
