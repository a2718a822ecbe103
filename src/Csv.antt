-- ===== src/Csv.antt =====
-- tickets/import-export/tickets-csv.service.ts. The CSV parser and printer are libraries: `import`
-- starts from the parsed records, `export` ends at the rows that are printed.
pub mod Rows
pub mod Accounting
pub mod RoundTrip
use issueflow.Prelude.{
  ℕ, ◌+◌, ltb, Text, Bool, true, false, Option, none, some, List, [], ◌∷◌, ◌++◌, map, length,
  is_empty, if◌then◌else◌,
}
use issueflow.Enums.{TicketStatus, TicketPriority, TicketType, project_entity, create_action}
use issueflow.Entities.{Ticket, export_event, import_event}
use issueflow.Store.{
  Db, Env, Exec, Error, ok, err, unexpected, bad_request, pure, raise_if, ◌>>=◌, ◌>>◌,
}
use issueflow.Audit.{actor_of, input, record_entry}
use issueflow.Projects
use issueflow.Tickets.Base.{Registered, find_all_for_project}
use issueflow.Tickets.Create.{CreateTicketDto, create}

-- One printed row: the columns of COLUMNS.
pub record CsvRow : Type 0 where
  pub id : ℕ
  pub title : Text
  pub description : Text
  pub status : TicketStatus
  pub priority : TicketPriority
  pub type : TicketType
  pub assignee_id : Option ℕ

unfoldable pub row_from_ticket : Ticket → CsvRow
row_from_ticket t = record {
  id = t.id;
  title = t.title;
  description = t.description;
  status = t.status;
  priority = t.priority;
  type = t.type;
  assignee_id = t.assignee_id;
}

-- `parseInt(raw.assigneeId, 10)` of the cell: empty, not a number, or a number.
pub data IntCell : Type 0 where
  blank_cell nan_cell : IntCell
  int_cell : ℕ → IntCell

-- A parsed record. A cell that is no member of its enumeration is `none`.
pub record RawRow : Type 0 where
  pub title : Text
  pub description : Text
  pub status : Option TicketStatus
  pub priority : Option TicketPriority
  pub type : Option TicketType
  pub assignee_id : IntCell

pub data Violation : Type 0 where
  title_is_not_empty description_is_not_empty status_is_enum priority_is_enum : Violation
  type_is_enum assignee_id_is_int : Violation

abbrev violation_if : Bool → Violation → List Violation
violation_if true v = v ∷ []
violation_if false v = []

abbrev missing : {A : Type 0} → Option A → Bool
missing none = true
missing (some a) = false

abbrev bad_int : IntCell → Bool
bad_int nan_cell = true
bad_int _ = false

-- `validate(dto)`, by the decorators of create-ticket.dto.ts.
unfoldable pub validate_row : RawRow → List Violation
validate_row raw =
    violation_if (is_empty raw.title) title_is_not_empty
    ++ violation_if (is_empty raw.description) description_is_not_empty
    ++ violation_if (missing raw.status) status_is_enum
    ++ violation_if (missing raw.priority) priority_is_enum
    ++ violation_if (missing raw.type) type_is_enum
    ++ violation_if (bad_int raw.assignee_id) assignee_id_is_int

abbrev int_of : IntCell → Option ℕ
int_of (int_cell n) = some n
int_of _ = none

abbrev dto_fields : RawRow → ℕ → TicketStatus → TicketPriority → TicketType → CreateTicketDto
dto_fields raw project_id status priority type = record {
  title = raw.title;
  description = raw.description;
  status = status;
  priority = priority;
  type = type;
  project_id = project_id;
  assignee_id = int_of raw.assignee_id;
  due_date = none;
}

-- `ticketFromRow`, at a row whose enumeration cells are members.
unfoldable pub ticket_from_row : RawRow → ℕ → Option CreateTicketDto
ticket_from_row raw project_id = elim raw.status [
  | none ↦ none
  | some status ↦ elim raw.priority [
    | none ↦ none
    | some priority ↦ elim raw.type [
      | none ↦ none
      | some type ↦ some (dto_fields raw project_id status priority type)
    ]
  ]
]

pub data RowError : Type 0 where
  violations : List Violation → RowError
  http_message : Error → RowError
  internal_error : RowError

pub record ImportError : Type 0 where
  pub row : ℕ
  pub error : RowError

pub record ImportResult : Type 0 where
  pub created : ℕ
  pub failed : ℕ
  pub errors : List ImportError

unfoldable pub to_row_error_message : Error → RowError
to_row_error_message unexpected = internal_error
to_row_error_message e = http_message e

abbrev pub max_import_rows : ℕ
max_import_rows = 5000

module _ (env : Env) (reg : Registered) where
  -- `try {create } catch`: none where a ticket was created.
  unfoldable pub try_create : CreateTicketDto → Option ℕ → Db → Option RowError × Db
  unfolding to_row_error_message
  try_create dto actor_user_id s =
      let (r, s') = create env reg dto actor_user_id s in
      elim r [ ok t ↦ (none, s') | err e ↦ (some (to_row_error_message e), s') ]

  -- One row: its error, if it has one, and the database after it.
  unfoldable pub import_row : ℕ → Option ℕ → RawRow → Db → Option RowError × Db
  unfolding validate_row ticket_from_row try_create
  import_row project_id actor_user_id raw s =
      if is_empty (validate_row raw)
      then elim (ticket_from_row raw project_id) [
        | none ↦ (some internal_error, s)
        | some dto ↦ try_create dto actor_user_id s
      ]
      else (some (violations (validate_row raw)), s)

  abbrev pub note_row : ℕ → Option RowError → ℕ × List ImportError → ℕ × List ImportError
  note_row line none (created, errors) = (created + 1, errors)
  note_row line (some e) (created, errors) =
      (created, errors ++ record { row = line; error = e } ∷ [])

  -- The loop from the file line `line` on, with `created` and `errors` so far.
  unfoldable pub import_rows :
      ℕ → Option ℕ → ℕ → List RawRow → ℕ × List ImportError → Db → (ℕ × List ImportError) × Db
  import_rows project_id actor_user_id line [] acc s = (acc, s)
  import_rows project_id actor_user_id line (raw ∷ rest) acc s =
      let (e, s') = import_row project_id actor_user_id raw s in
      import_rows project_id actor_user_id (line + 1) rest (note_row line e acc) s'

  unfoldable pub import_tickets : ℕ → List RawRow → Option ℕ → Exec ImportResult
  import_tickets project_id records actor_user_id = do
    Projects.assert_active project_id
    raise_if (ltb max_import_rows (length records)) (bad_request "Too many rows — limit is 5000")
    tally ← λ s.
        let (acc, s') = import_rows project_id actor_user_id 2 records (0, []) s in (ok acc, s')
    record_entry env (
        input create_action project_entity project_id (actor_of actor_user_id)
          (some (import_event tally.0 (length tally.1))))
    pure (record { created = tally.0; failed = length tally.1; errors = tally.1 })

module _ (env : Env) where
  unfoldable pub export_tickets : ℕ → Option ℕ → Exec (List CsvRow)
  unfolding row_from_ticket
  export_tickets project_id actor_user_id = do
    Projects.assert_active project_id
    rows ← find_all_for_project project_id
    record_entry env (
        input create_action project_entity project_id (actor_of actor_user_id)
          (some (export_event (length rows))))
    pure (map row_from_ticket rows)
