-- ===== src/History/Services/Tickets.antt =====
-- Updates, inserts, imports and exports of tickets.
use issueflow.Prelude.{
  ℕ, ◌+◌, ◌≡◌, ◌≢◌, refl, sym, ◌∙◌, arith, ◌==◌, Bool, true, false, Option, none, some, List, [],
  ◌∷◌, map, is_empty, find_one, update_where, if◌then◌else◌,
}
use issueflow.Enums.{done, status_eq}
use issueflow.Entities.{Ticket, is_null}
use issueflow.Store.{
  Db, Env, Result, ok, err, raise, version_mismatch, pure, gets, modify, ◌>>=◌, ◌>>◌,
}
use issueflow.Tickets.Base.{Registered, is_ticket, assert_version_matches, find_all_for_project}
use issueflow.Tickets.Update.{
  UpdateTicketDto, assert_editable, apply_status_change, apply_assignee_change,
  apply_scalar_patches, save_with_version_guard, apply_update, update,
}
use issueflow.Tickets.Update.Rules.{
  Kept, IsQuiet, status_change-Kept, assignee_change-Kept, patches-Kept, Kept-trans,
  status_change-reads, assignee_change-reads,
}
use issueflow.Tickets.Create.{
  CreateTicketDto, auto_assign_row, assert_assignee, insert_ticket, create,
}
use issueflow.Tickets.Create.Laws.{IsReading}
use issueflow.Csv.{
  RawRow, ImportError, RowError, to_row_error_message, validate_row, ticket_from_row, note_row,
  try_create, import_row, import_rows, import_tickets, export_tickets,
}
use issueflow.History.Tables.{Moves-append_one, Moves-save}
use issueflow.History.Later.{
  Later, Later_refl, Later_trans, TicketBecomes, FreshIds, Ticket-Becoming,
}
use issueflow.History.Respects.{
  Respects, Respects-pure, Respects-gets, Respects-gets_bind, Respects-raise_if, Respects-bind,
  Respects-then, modify_then, Respects-record_entry, Respects-insert_row, Respects-transaction_at,
  Respects-reads, bind_later,
}
use issueflow.History.Ends.{insert_ticket-Keeps}
use issueflow.History.Writes.{on_tickets, undo_tickets_log}
use issueflow.History.Services.Reading.{project_active-Respects, user_active-Respects}

-- What `update` writes over a row that is not DONE.
allowed : {row t : Ticket} → row.status ≢ done → Kept row t → TicketBecomes row t
allowed h k = ground arith

module _ (env : Env) (reg : Registered) where
  save_later :
      (id : ℕ) (row t : Ticket) (s : Db)
      → find_one (is_ticket id) s.tickets ≡ some row
      → row.status ≢ done
      → Kept row t
      → Later s (save_with_version_guard env row t s).1
  unfolding save_with_version_guard ◌>>=◌
  save_later id row t s found h k = go (env.save_conflict t)
    where
      saved : Ticket
      saved = record t { version = env.ticket_version row t }

      go :
          (b : Bool)
          → Later s
              ((if b
                  then (do
                    fresh ← gets (λ s. find_one (is_ticket t.id) s.tickets)
                    raise (
                        version_mismatch "Ticket"
                          (elim fresh [ none ↦ none | some r ↦ some r.version ])))
                  else (do
                    modify λ s. record s {
                      tickets = update_where (is_ticket t.id) (λ r. saved) s.tickets;
                    }
                    pure saved))
                s).1
      go true = Later_refl s
      go false = on_tickets s _ (
          Moves-save Ticket-Becoming (is_ticket id) t.id saved s.tickets found (sym k.id)
            (allowed h (Kept-trans k (ground arith))))

  module _ (quiet : IsQuiet reg) where
    apply_later :
        (id : ℕ) (row : Ticket) (dto : UpdateTicketDto) (actor : Option ℕ) (s : Db)
        → find_one (is_ticket id) s.tickets ≡ some row
        → row.status ≢ done
        → Later s (apply_update env reg row dto actor s).1
    unfolding apply_update
    apply_later id row dto actor s found h =
        bind_later (apply_status_change reg row dto) _ s
          (rw (status_change-reads reg quiet row dto s) (Later_refl s))
          λ moved s1 e1.
            let same1 : s ≡ s1 = cc (status_change-reads reg quiet row dto s) in
            bind_later (apply_assignee_change moved dto) _ s1
              (rw (assignee_change-reads reg quiet moved dto s1) (Later_refl s1))
              λ placed s2 e2.
                let same2 : s1 ≡ s2 = cc (assignee_change-reads reg quiet moved dto s1) in
                let k : Kept row (apply_scalar_patches placed dto) =
                  Kept-trans (status_change-Kept reg row dto s e1)
                    (Kept-trans (assignee_change-Kept moved dto s1 e2) (patches-Kept placed dto)) in
                let there : find_one (is_ticket id) s2.tickets ≡ some row =
                  rw (same1 ∙ same2) at found in
                bind_later (save_with_version_guard env row (apply_scalar_patches placed dto)) _ s2
                  (save_later id row (apply_scalar_patches placed dto) s2 there h k)
                  λ saved s3 e3.
                    (Respects-then _ _ (Respects-record_entry env _) (Respects-pure saved)).at s3

    -- Only a row that passes every check is written.
    checked :
        (id : ℕ) (dto : UpdateTicketDto) (actor : Option ℕ) (version : ℕ) (s : Db) (row : Ticket)
        → find_one (is_ticket id) s.tickets ≡ some row
        → (b c d : Bool) → is_null row.deleted_at ≡ b
        → status_eq row.status done ≡ c
        → row.version == version ≡ d
        → Later s (update env reg id dto actor version s).1
    unfolding update assert_editable assert_version_matches ◌>>=◌
    checked id dto actor version s row e false c d p q r = rw e (rw p (Later_refl s))
    checked id dto actor version s row e true true d p q r = rw e (rw p (rw q (Later_refl s)))
    checked id dto actor version s row e true false false p q r =
        rw e (rw p (rw q (rw r (Later_refl s))))
    checked id dto actor version s row e true false true p q r =
        rw e (rw p (rw q (rw r (apply_later id row dto actor s e (ground arith)))))

    pub update-Respects :
        (id : ℕ) (dto : UpdateTicketDto) (actor : Option ℕ) (version : ℕ)
        → Respects (update env reg id dto actor version)
    unfolding update ◌>>=◌
    update-Respects id dto actor version = record {
      at = λ s. go s (find_one (is_ticket id) s.tickets) refl;
    }
      where
        go :
            (s : Db) (o : Option Ticket)
            → find_one (is_ticket id) s.tickets ≡ o
            → Later s (update env reg id dto actor version s).1
        go s none e = rw e (Later_refl s)
        go s (some row) e = checked id dto actor version s row e _ _ _ refl refl refl

  module _ (fresh : FreshIds env) (reads : IsReading env reg) where
    insert_ticket-Respects :
        (dto : CreateTicketDto) (actor : Option ℕ) → Respects (insert_ticket env reg dto actor)
    unfolding insert_ticket
    insert_ticket-Respects dto actor = Respects-bind _ _ (Respects-reads _ (reads dto)) λ choice.
        Respects-gets_bind _ _ λ s.
          modify_then _ _ s
            (on_tickets s _
              (Moves-append_one Ticket-Becoming s.tickets _ (fresh (map (λ t. t.id) s.tickets))))
            (Respects-then _ _ (Respects-insert_row env _)
              (Respects-then _ _ (noted _ choice) (Respects-pure _)))
      where
        noted : (id : ℕ) (choice : Option ℕ × Bool) → Respects (auto_assign_row env id choice)
        noted id (none, b) = Respects-pure tt
        noted id (some n, false) = Respects-pure tt
        noted id (some n, true) = Respects-insert_row env _

    assignee-Respects : (o : Option ℕ) → Respects (assert_assignee env o)
    assignee-Respects none = Respects-pure tt
    assignee-Respects (some id) = user_active-Respects id

    pub create-Respects :
        (dto : CreateTicketDto) (actor : Option ℕ) → Respects (create env reg dto actor)
    unfolding create
    create-Respects dto actor = Respects-then _ _ (project_active-Respects dto.project_id) (
        Respects-then _ _ (assignee-Respects dto.assignee_id) (
          Respects-transaction_at
            (λ s s'. record s' { tickets = s.tickets; audit_logs = s.audit_logs }) _
            (λ s l. undo_tickets_log s _ l ((insert_ticket-Keeps env reg reads dto actor).at s))
            (insert_ticket-Respects dto actor)))

    tried :
        (dto : CreateTicketDto) (actor : Option ℕ) (s : Db)
        → Later s (try_create env reg dto actor s).1
    unfolding try_create
    tried dto actor s =
        let (r, t) = create env reg dto actor s in go r t ((create-Respects dto actor).at s)
      where
        go :
            (r : Result Ticket) (t : Db)
            → Later s t
            → Later s
                (let q : Option RowError × Db = elim r [
                  | ok a ↦ (none, t)
                  | err e ↦ (some (to_row_error_message e), t)
                ] in
                  q).1
        go (ok a) t l = l
        go (err e) t l = l

    imported :
        (project_id : ℕ) (actor : Option ℕ) (raw : RawRow) (s : Db)
        → Later s (import_row env reg project_id actor raw s).1
    unfolding import_row
    imported project_id actor raw s =
        go (is_empty (validate_row raw)) (ticket_from_row raw project_id)
      where
        go :
            (b : Bool) (o : Option CreateTicketDto)
            → Later s
                (let q : Option RowError × Db =
                    if b
                    then elim o [
                      | none ↦ (some RowError.internal_error, s)
                      | some dto ↦ try_create env reg dto actor s
                    ]
                    else (some (RowError.violations (validate_row raw)), s) in
                  q).1
        go true none = Later_refl s
        go true (some dto) = tried dto actor s
        go false o = Later_refl s

    imported_rows :
        (project_id : ℕ) (actor : Option ℕ) (line : ℕ) (rows : List RawRow)
        (acc : ℕ × List ImportError) (s : Db)
        → Later s (import_rows env reg project_id actor line rows acc s).1
    unfolding import_rows
    imported_rows project_id actor line [] acc s = Later_refl s
    imported_rows project_id actor line (raw ∷ rest) acc s =
        let (e, t) = import_row env reg project_id actor raw s in
        Later_trans s t _ (imported project_id actor raw s)
          (imported_rows project_id actor (line + 1) rest (note_row env reg line e acc) t)

    pub import-Respects :
        (project_id : ℕ) (rows : List RawRow) (actor : Option ℕ)
        → Respects (import_tickets env reg project_id rows actor)
    unfolding import_tickets
    import-Respects project_id rows actor = Respects-then _ _ (project_active-Respects project_id) (
        Respects-then _ _ (Respects-raise_if _ _) (
          Respects-bind _ _ (record { at = λ s. imported_rows project_id actor 2 rows (0, []) s })
            λ tally. Respects-then _ _ (Respects-record_entry env _) (Respects-pure _)))

  for_project-Respects : (id : ℕ) → Respects (find_all_for_project id)
  unfolding find_all_for_project
  for_project-Respects id = Respects-then _ _ (project_active-Respects id) (Respects-gets _)

  pub export-Respects :
      (project_id : ℕ) (actor : Option ℕ) → Respects (export_tickets env project_id actor)
  unfolding export_tickets
  export-Respects project_id actor = Respects-then _ _ (project_active-Respects project_id) (
      Respects-bind _ _ (for_project-Respects project_id)
        λ rows. Respects-then _ _ (Respects-record_entry env _) (Respects-pure _))
