-- ===== src/Csv/Rows.antt =====
-- What one row of an import does: it files its ticket, or it is refused and leaves the database
-- alone.
use issueflow.Prelude.{
  ℕ, ◌≡◌, refl, arith, Bool, true, false, Bool-cases, inl, inr, Option, none, some, [], ◌∷◌, ◌++◌,
  is_empty,
}
use issueflow.Enums.{TicketStatus, TicketPriority, TicketType}
use issueflow.Entities.{Ticket}
use issueflow.Store.{Db, Env, Exec, Error, Result, ok, err}
use issueflow.Tickets.Base.{Registered}
use issueflow.Tickets.Create.{CreateTicketDto, create}
use issueflow.Tickets.Create.Laws.{IsReading, Assigned, create-error, create-new_ticket}
use issueflow.Csv.{
  RawRow, IntCell, blank_cell, nan_cell, int_cell, RowError, violations, bad_int, int_of,
  dto_fields, validate_row, ticket_from_row, to_row_error_message, try_create, import_row,
}

-- The assignee of a ticket, from the cell: a blank cell leaves it to the resolver.
abbrev pub AssigneeOf : IntCell → Ticket → Type 0
AssigneeOf (int_cell id) t = t.assignee_id ≡ some id
AssigneeOf blank_cell t = Unit
AssigneeOf nan_cell t = ⊥

-- The ticket is the one that the record describes, and the record is complete.
pub record Filed (project_id : ℕ) (raw : RawRow) (t : Ticket) : Type 0 where
  pub titled : is_empty raw.title ≡ false
  pub described : is_empty raw.description ≡ false
  pub title : t.title ≡ raw.title
  pub description : t.description ≡ raw.description
  pub status : raw.status ≡ some t.status
  pub priority : raw.priority ≡ some t.priority
  pub type : raw.type ≡ some t.type
  pub project : t.project_id ≡ project_id
  pub assignee : AssigneeOf raw.assignee_id t

-- A record without violations.
record Complete (raw : RawRow) : Type 0 where
  titled : is_empty raw.title ≡ false
  described : is_empty raw.description ≡ false
  status_cell : TicketStatus
  priority_cell : TicketPriority
  type_cell : TicketType
  has_status : raw.status ≡ some status_cell
  has_priority : raw.priority ≡ some priority_cell
  has_type : raw.type ≡ some type_cell
  is_int : bad_int raw.assignee_id ≡ false

complete : (raw : RawRow) → is_empty (validate_row raw) ≡ true → Complete raw
unfolding validate_row
complete raw h = go raw.status raw.priority raw.type refl refl refl
  where
    go :
        (s : Option TicketStatus) (p : Option TicketPriority) (t : Option TicketType)
        → raw.status ≡ s
        → raw.priority ≡ p
        → raw.type ≡ t
        → Complete raw
    go (some s) (some p) (some t) es ep et = record {
      titled = ground arith;
      described = ground arith;
      status_cell = s;
      priority_cell = p;
      type_cell = t;
      has_status = es;
      has_priority = ep;
      has_type = et;
      is_int = ground arith;
    }
    go none p t es ep et = ground arith
    go (some s) none t es ep et = ground arith
    go (some s) (some p) none es ep et = ground arith

-- What a record lacks.
pub data Incomplete (raw : RawRow) : Type 0 where
  no_title : is_empty raw.title ≡ true → Incomplete raw
  no_description : is_empty raw.description ≡ true → Incomplete raw
  no_status : raw.status ≡ none → Incomplete raw
  no_priority : raw.priority ≡ none → Incomplete raw
  no_type : raw.type ≡ none → Incomplete raw
  no_int : raw.assignee_id ≡ nan_cell → Incomplete raw

incomplete : (raw : RawRow) → is_empty (validate_row raw) ≡ false → Incomplete raw
unfolding validate_row
incomplete raw h =
    go (is_empty raw.title) (is_empty raw.description) raw.status raw.priority raw.type
      raw.assignee_id refl refl refl refl refl refl
  where
    go :
        (a b : Bool) (s : Option TicketStatus) (p : Option TicketPriority) (t : Option TicketType)
        (c : IntCell)
        → is_empty raw.title ≡ a
        → is_empty raw.description ≡ b
        → raw.status ≡ s
        → raw.priority ≡ p
        → raw.type ≡ t
        → raw.assignee_id ≡ c
        → Incomplete raw
    go true b s p t c ea eb es ep et ec = no_title ea
    go false true s p t c ea eb es ep et ec = no_description eb
    go false false none p t c ea eb es ep et ec = no_status es
    go false false (some s) none t c ea eb es ep et ec = no_priority ep
    go false false (some s) (some p) none c ea eb es ep et ec = no_type et
    go false false (some s) (some p) (some t) nan_cell ea eb es ep et ec = no_int ec
    go false false (some s) (some p) (some t) blank_cell ea eb es ep et ec = ground arith
    go false false (some s) (some p) (some t) (int_cell n) ea eb es ep et ec = ground arith

module _ (env : Env) (reg : Registered) (project_id : ℕ) (actor : Option ℕ) where
  -- Why a record is refused: it is incomplete, and the error lists its violations, or `create` fails
  -- on what it asks for.
  pub data Reason (raw : RawRow) (s : Db) : RowError → Type 0 where
    invalid : Incomplete raw → Reason raw s (violations (validate_row raw))
    unfit :
        (dto : CreateTicketDto) (e : Error)
        → ticket_from_row raw project_id ≡ some dto
        → create env reg dto actor s ≡ (err e, s)
        → Reason raw s (to_row_error_message e)

  -- What the import of a record leads to: its one ticket and rows of the log, or its error and
  -- nothing.
  pub data Fate (raw : RawRow) (s : Db) : Option RowError × Db → Type 0 where
    filed :
        (t : Ticket) (s' : Db)
        → Filed project_id raw t
        → s' ≡ record s { tickets = s.tickets ++ t ∷ []; audit_logs = s'.audit_logs }
        → Fate raw s (none, s')
    refused : (e : RowError) → Reason raw s e → Fate raw s (some e, s)

module _ (env : Env) (reg : Registered) (reads : IsReading env reg) (project_id : ℕ)
    (actor : Option ℕ) where
  assigned :
      (cell : IntCell) (pick : Option (ℕ → Exec (Option ℕ))) (s : Db) (t : Ticket)
      → bad_int cell ≡ false
      → Assigned pick (int_of cell) s t
      → AssigneeOf cell t
  assigned blank_cell pick s t h a = tt
  assigned nan_cell pick s t h a = cc
  assigned (int_cell id) none s t h a = a.0
  assigned (int_cell id) (some pick) s t h a = a.0

  abbrev asked_by : (raw : RawRow) → Complete raw → CreateTicketDto
  asked_by raw c = dto_fields raw project_id c.status_cell c.priority_cell c.type_cell

  asked_by_row :
      (raw : RawRow) (c : Complete raw) → ticket_from_row raw project_id ≡ some (asked_by raw c)
  unfolding ticket_from_row
  asked_by_row raw c = ground (arith, c.has_status, c.has_priority, c.has_type)

  created_row :
      (raw : RawRow) (c : Complete raw) (s : Db)
      → Fate env reg project_id actor raw s (try_create env reg (asked_by raw c) actor s)
  unfolding try_create
  created_row raw c s = go (create env reg (asked_by raw c) actor s) refl
    where
      go :
          (r : Result Ticket × Db)
          → create env reg (asked_by raw c) actor s ≡ r
          → Fate env reg project_id actor raw s (
              let (q, s') = r in
              elim q [ ok t ↦ (none, s') | err e ↦ (some (to_row_error_message e), s') ])
      go (err e, s') h =
          let same = create-error env reg reads (asked_by raw c) actor s s' e h in
          rw same (
            refused (to_row_error_message e)
              (unfit (asked_by raw c) e (asked_by_row raw c) (rw same at h)))
      go (ok t, s') h =
          let (asked, _, whose, _, frame) =
            create-new_ticket env reg reads (asked_by raw c) actor s s' t h in
          filed t s'
            (record {
              titled = c.titled;
              described = c.described;
              title = asked.title;
              description = asked.description;
              status = rw asked.status c.has_status;
              priority = rw asked.priority c.has_priority;
              type = rw asked.type c.has_type;
              project = asked.project_id;
              assignee = assigned raw.assignee_id reg.auto_assign s t c.is_int whose;
            })
            frame

  import_row-try_create :
      (raw : RawRow) (c : Complete raw) (s : Db)
      → is_empty (validate_row raw) ≡ true
      → import_row env reg project_id actor raw s ≡ try_create env reg (asked_by raw c) actor s
  unfolding import_row
  import_row-try_create raw c s good = rw (good, asked_by_row raw c) refl

  pub import_row-Fate :
      (raw : RawRow) (s : Db)
      → Fate env reg project_id actor raw s (import_row env reg project_id actor raw s)
  unfolding import_row
  import_row-Fate raw s = elim (Bool-cases (is_empty (validate_row raw))) [
    | inr bad ↦ rw bad (refused (violations (validate_row raw)) (invalid (incomplete raw bad)))
    | inl good ↦
        let c = complete raw good in rw (import_row-try_create raw c s good) (created_row raw c s)
  ]
