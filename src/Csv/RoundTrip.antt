-- ===== src/Csv/RoundTrip.antt =====
-- A file that was exported is imported as it was.
use issueflow.Prelude.{
  ℕ, ◌+◌, ◌≤◌, ◌≡◌, refl, arith, Bool, true, false, ◌==◌, ◌&&◌, not, Option, none, some, List, [],
  ◌∷◌, ◌++◌, length, map, is_empty, filter, All, sym, ◌∙◌, ap,
}
use issueflow.Enums.{create_action, project_entity}
use issueflow.Entities.{Ticket, AuditLog, is_null, import_event, export_event}
use issueflow.Store.{Db, Env, ok, ◌>>=◌}
use issueflow.Audit.{input, actor_of, audit_row, record_entry-frame}
use issueflow.Projects
use issueflow.Tickets.Base.{Registered, find_all_for_project}
use issueflow.Tickets.Create.{new_ticket}
use issueflow.Prelude.Rows.{append_nil, append_assoc, length-map}
use issueflow.Tickets.Create.Succeeding.{
  AllActive, live_same, active_same, Answers, assignee_active, chosen, record_entry-accepts,
  project_accepted, create-succeeds,
}
use issueflow.Csv.{
  CsvRow, RawRow, IntCell, blank_cell, int_cell, row_from_ticket, ImportError, validate_row,
  ticket_from_row, dto_fields, int_of, bad_int, import_row, import_rows, import_tickets,
  export_tickets, try_create, max_import_rows,
}

-- What the cells of a printed row stand for.
abbrev pub assignee_cell : Option ℕ → IntCell
assignee_cell none = blank_cell
assignee_cell (some id) = int_cell id

abbrev pub cells : CsvRow → RawRow
cells row = record {
  title = row.title;
  description = row.description;
  status = some row.status;
  priority = some row.priority;
  type = some row.type;
  assignee_id = assignee_cell row.assignee_id;
}

abbrev pub filled : Ticket → Bool
filled t = not (is_empty t.title) && not (is_empty t.description)

-- The new ticket has what the file carries of the old one.
abbrev pub Carried : ℕ → Ticket → Ticket → Type 0
Carried project_id old new =
    (new.title ≡ old.title)
    × (new.description ≡ old.description)
    × (new.status ≡ old.status)
    × (new.priority ≡ old.priority)
    × (new.type ≡ old.type)
    × (new.project_id ≡ project_id)
    × ((id : ℕ) → old.assignee_id ≡ some id → new.assignee_id ≡ some id)

abbrev pub AllCarried : ℕ → List Ticket → List Ticket → Type 0
AllCarried project_id [] [] = Unit
AllCarried project_id (old ∷ olds) (new ∷ news) =
    Carried project_id old new × AllCarried project_id olds news
AllCarried project_id _ _ = ⊥

bad_int-assignee_cell : (a : Option ℕ) → bad_int (assignee_cell a) ≡ false
bad_int-assignee_cell none = refl
bad_int-assignee_cell (some id) = refl

validate_row-cells : (t : Ticket) → filled t ≡ true → validate_row (cells (row_from_ticket t)) ≡ []
unfolding validate_row row_from_ticket
validate_row-cells t h = ground (arith, bad_int-assignee_cell t.assignee_id)

int_of-assignee_cell : (a : Option ℕ) → int_of (assignee_cell a) ≡ a
int_of-assignee_cell none = refl
int_of-assignee_cell (some id) = refl

-- The tickets that an export reads.
abbrev pub project_tickets : ℕ → Db → List Ticket
project_tickets p s = filter (λ t. (t.project_id == p) && is_null t.deleted_at) s.tickets

export_tickets-rows :
    (env : Env) (p : ℕ) (actor : Option ℕ) (s s' : Db) (rows : List CsvRow)
    → export_tickets env p actor s ≡ (ok rows, s')
    → rows ≡ map row_from_ticket (project_tickets p s)
unfolding export_tickets find_all_for_project Projects.assert_active ◌>>=◌
export_tickets-rows env p actor s s' rows h = ground (
  arith,
  record_entry-frame env
      (input create_action project_entity p (actor_of actor)
        (some (export_event (length (project_tickets p s)))))
      s,
)

module _ (env : Env) (reg : Registered) (answers : Answers env reg)
    (accepts : (row : AuditLog) → env.audit_accepts row ≡ true) where
  -- One row of a file that was printed.
  import_row-cells :
      (q : ℕ) (actor : Option ℕ) (t : Ticket) (s : Db)
      → filled t ≡ true
      → Projects.exists_and_active q s ≡ true
      → assignee_active s t.assignee_id ≡ true
      → (new : Ticket) × (s' : Db) × (import_row env reg q actor (cells (row_from_ticket t)) s
          ≡ (none, s'))
        × Carried q t new
        × (s'.tickets ≡ s.tickets ++ new ∷ [])
        × (s'.projects ≡ s.projects)
        × (s'.users ≡ s.users)
  unfolding import_row row_from_ticket ticket_from_row try_create new_ticket
  import_row-cells q actor t s full live active =
      let dto = dto_fields (cells (row_from_ticket t)) q t.status t.priority t.type in
      let same = int_of-assignee_cell t.assignee_id in
      let (choice, s', h, e, in_s') =
        create-succeeds env reg answers accepts dto actor s live (rw same active) in
      (
        new_ticket env dto choice.0 s.tickets,
        s',
        ground (arith, validate_row-cells t full, e),
        (refl, refl, refl, refl, refl, refl, λ id k. chosen env reg dto s choice id h (rw same k)),
        in_s'.0,
        in_s'.1,
        in_s'.2,
      )

  import_rows-cells :
      (q : ℕ) (actor : Option ℕ) (line : ℕ) (ts : List Ticket) (acc : ℕ × List ImportError) (s : Db)
      → All (λ t. filled t ≡ true) ts
      → Projects.exists_and_active q s ≡ true
      → AllActive s ts
      → (news : List Ticket) × (s' : Db) × (import_rows env reg q actor line
            (map cells (map row_from_ticket ts))
            acc
            s
          ≡ ((acc.0 + length ts, acc.1), s'))
        × AllCarried q ts news
        × (s'.tickets ≡ s.tickets ++ news)
  unfolding import_rows
  import_rows-cells q actor line [] acc s full live active =
      ([], s, ground arith, tt, sym (append_nil s.tickets))
  import_rows-cells q actor line (t ∷ ts) (created, errors) s (f, full) live (a, active) =
      let (new, s1, e, carried, rows1, projects1, users1) = import_row-cells q actor t s f live a in
      let (news, s', e', all_carried, rows') =
        import_rows-cells q actor (line + 1) ts (created + 1, errors) s1 full
          (live_same q s s1 projects1 live) (active_same s s1 users1 ts active) in
      (
        new ∷ news,
        s',
        rw (e, import_rows) (e' ∙ ap (λ n. ((n, errors), s')) (omega arith)),
        (carried, all_carried),
        rows' ∙ ap (λ xs. xs ++ news) rows1 ∙ append_assoc s.tickets (new ∷ []) news,
      )

  import_tickets-cells :
      (q : ℕ) (actor : Option ℕ) (ts : List Ticket) (s : Db)
      → All (λ t. filled t ≡ true) ts
      → Projects.exists_and_active q s ≡ true
      → AllActive s ts
      → length ts ≤ max_import_rows
      → (news : List Ticket) × (s' : Db) × (import_tickets env reg q
            (map cells (map row_from_ticket ts))
            actor
            s
          ≡ (ok (record { created = length ts; failed = 0; errors = [] }), s'))
        × AllCarried q ts news
        × (s'.tickets ≡ s.tickets ++ news)
  unfolding import_tickets ◌>>=◌
  import_tickets-cells q actor ts s full live active few =
      let (news, s1, e, carried, rows) =
        import_rows-cells q actor 2 ts (0, []) s full live active in
      let inp =
        input create_action project_entity q (actor_of actor) (some (import_event (length ts) 0)) in
      (
        news,
        record s1 { audit_logs = s1.audit_logs ++ audit_row env inp s1.audit_logs ∷ [] },
        ground (
          arith,
          project_accepted env reg answers accepts q s live,
          length-map cells (map row_from_ticket ts),
          length-map row_from_ticket ts,
          e,
          record_entry-accepts env reg answers accepts inp s1,
        ),
        carried,
        rows,
      )

-- If the CSV library reads back what it has printed, the resolver of assignees only answers, the log
-- takes its rows, and every exported ticket has a title and a description and a live assignee or
-- none: at most 5000 exported tickets, imported into a live project, are all created, with the
-- title, description, status, priority and type they had, and the assignee where they had one.
pub import_tickets-export_tickets :
    {File : Type 0} (stringify : List CsvRow → File) (parse : File → List RawRow) (env env' : Env)
    (reg : Registered) (p q : ℕ) (actor actor' : Option ℕ) (s s1 s2 : Db) (rows : List CsvRow)
    → ((xs : List CsvRow) → parse (stringify xs) ≡ map cells xs)
    → Answers env' reg
    → ((row : AuditLog) → env'.audit_accepts row ≡ true)
    → export_tickets env p actor s ≡ (ok rows, s1)
    → All (λ t. filled t ≡ true) (project_tickets p s)
    → Projects.exists_and_active q s2 ≡ true
    → AllActive s2 (project_tickets p s)
    → length (project_tickets p s) ≤ max_import_rows
    → (news : List Ticket) × (s3 : Db) × (import_tickets env' reg q
          (parse (stringify rows))
          actor'
          s2
        ≡ (ok (record { created = length (project_tickets p s); failed = 0; errors = [] }), s3))
      × AllCarried q (project_tickets p s) news
      × (s3.tickets ≡ s2.tickets ++ news)
import_tickets-export_tickets stringify parse env env' reg p q actor actor' s s1 s2 rows reads
      answers accepts h full live active few =
    let same = export_tickets-rows env p actor s s1 rows h in
    let read : parse (stringify rows) ≡ map cells (map row_from_ticket (project_tickets p s)) =
      reads rows ∙ ap (map cells) same in
    rw read (
      import_tickets-cells env' reg answers accepts q actor' (project_tickets p s) s2 full live
        active few)
