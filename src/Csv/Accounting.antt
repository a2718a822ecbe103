-- ===== src/Csv/Accounting.antt =====
-- An import, record by record: the tickets that are filed and the errors that are noted.
use issueflow.Prelude.{
  ℕ, ◌+◌, ◌≤◌, ◌<◌, ◌≡◌, Option, some, List, [], ◌∷◌, ◌++◌, arith, length, All, refl, sym, ap, ◌∙◌,
}
use issueflow.Prelude.Rows.{append_nil, append_assoc}
use issueflow.Enums.{create_action, project_entity}
use issueflow.Entities.{Ticket, import_event}
use issueflow.Store.{Db, Env, ok, ◌>>=◌}
use issueflow.Audit.{input, actor_of, record_entry-frame}
use issueflow.Projects
use issueflow.Tickets.Base.{Registered}
use issueflow.Tickets.Create.Laws.{IsReading}
use issueflow.Csv.Rows.{Filed, Reason, Fate, filed, refused, import_row-Fate}
use issueflow.Csv.{
  RawRow, ImportError, ImportResult, import_row, import_rows, import_tickets, note_row, RowError,
}

-- The lines of the errors lie in the range.
abbrev pub Within : ℕ → ℕ → ImportError → Type 0
Within lo hi e = (lo ≤ e.row) × (e.row < hi)

All-wider :
    (lo lo' hi hi' : ℕ) (xs : List ImportError)
    → lo' ≤ lo
    → hi ≤ hi'
    → All (Within lo hi) xs
    → All (Within lo' hi') xs
All-wider lo lo' hi hi' [] l h a = tt
All-wider lo lo' hi hi' (y ∷ ys) l h a =
    ((omega arith, omega arith), All-wider lo lo' hi hi' ys l h a.1)

module _ (env : Env) (reg : Registered) (project_id : ℕ) (actor : Option ℕ) where
  -- The records from the file line `line` on, one by one: the tickets they file, the errors of those
  -- that are refused, each under its own line, and the database before and behind them.
  pub data Imported : ℕ → Db → List RawRow → List Ticket → List ImportError → Db → Type 0 where
    all_read : (line : ℕ) (s : Db) → Imported line s [] [] [] s
    files :
        (line : ℕ) (s s1 s' : Db) (raw : RawRow) (rest : List RawRow) (t : Ticket)
        (ts : List Ticket) (es : List ImportError)
        → Filed project_id raw t
        → s1 ≡ record s { tickets = s.tickets ++ t ∷ []; audit_logs = s1.audit_logs }
        → Imported (line + 1) s1 rest ts es s'
        → Imported line s (raw ∷ rest) (t ∷ ts) es s'
    refuses :
        (line : ℕ) (s s' : Db) (raw : RawRow) (rest : List RawRow) (e : RowError) (ts : List Ticket)
        (es : List ImportError)
        → Reason env reg project_id actor raw s e
        → Imported (line + 1) s rest ts es s'
        → Imported line s (raw ∷ rest) ts (record { row = line; error = e } ∷ es) s'

  -- Every record is counted once.
  counted :
      {line : ℕ} {s s' : Db} {rows : List RawRow} {ts : List Ticket} {es : List ImportError}
      → Imported line s rows ts es s'
      → length ts + length es ≡ length rows
  counted (all_read line s) = refl
  counted (files line s s1 s' raw rest t ts es is frame k) = omega (arith, counted k)
  counted (refuses line s s' raw rest e ts es why k) = omega (arith, counted k)

  lines :
      {line : ℕ} {s s' : Db} {rows : List RawRow} {ts : List Ticket} {es : List ImportError}
      → Imported line s rows ts es s'
      → All (Within line (line + length rows)) es
  lines (all_read line s) = tt
  lines (files line s s1 s' raw rest t ts es is frame k) =
      All-wider (line + 1) line (line + 1 + length rest) (line + length (raw ∷ rest)) es
        (omega arith) (omega arith) (lines k)
  lines (refuses line s s' raw rest e ts es why k) = (
    (omega arith, omega arith),
    All-wider (line + 1) line (line + 1 + length rest) (line + length (raw ∷ rest)) es (omega arith)
        (omega arith) (lines k),
  )

  grown :
      {line : ℕ} {s s' : Db} {rows : List RawRow} {ts : List Ticket} {es : List ImportError}
      → Imported line s rows ts es s'
      → s' ≡ record s { tickets = s.tickets ++ ts; audit_logs = s'.audit_logs }
  grown (all_read line s) = rw (append_nil s.tickets) refl
  grown (files line s s1 s' raw rest t ts es is frame k) =
      ground (arith, frame, grown k, append_assoc s.tickets (t ∷ []) ts)
  grown (refuses line s s' raw rest e ts es why k) = grown k

  -- The loop from a line on files and refuses its records, onto what it has counted and noted.
  abbrev Read : ℕ → List RawRow → ℕ × List ImportError → Db → (ℕ × List ImportError) × Db → Type 0
  Read line rows acc s (r, s') =
      (ts : List Ticket) × (es : List ImportError) × Imported line s rows ts es s'
      × (r.0 ≡ acc.0 + length ts)
      × (r.1 ≡ acc.1 ++ es)

  one_more_row :
      (line : ℕ) (raw : RawRow) (rest : List RawRow) (acc : ℕ × List ImportError) (s : Db)
      (f : Option RowError × Db) (r : (ℕ × List ImportError) × Db)
      → Fate env reg project_id actor raw s f
      → Read (line + 1) rest (note_row env reg line f.0 acc) f.1 r
      → Read line (raw ∷ rest) acc s r
  one_more_row line raw rest acc s _ (r, s') (filed t s1 is frame) (ts, es, k, n, m) =
      (t ∷ ts, es, files line s s1 s' raw rest t ts es is frame k, omega arith, m)
  one_more_row line raw rest acc s _ (r, s') (refused e why) (ts, es, k, n, m) = (
    ts,
    record { row = line; error = e } ∷ es,
    refuses line s s' raw rest e ts es why k,
    n,
    m ∙ append_assoc acc.1 (record { row = line; error = e } ∷ []) es,
  )

  module _ (reads : IsReading env reg) where
    import_rows-Read :
        (line : ℕ) (rows : List RawRow) (acc : ℕ × List ImportError) (s : Db)
        → Read line rows acc s (import_rows env reg project_id actor line rows acc s)
    unfolding import_rows
    import_rows-Read line [] acc s = ([], [], all_read line s, omega arith, sym (append_nil acc.1))
    import_rows-Read line (raw ∷ rest) acc s =
        let (e, s1) = import_row env reg project_id actor raw s in
        one_more_row line raw rest acc s (e, s1) _
          (import_row-Fate env reg reads project_id actor raw s)
          (import_rows-Read (line + 1) rest (note_row env reg line e acc) s1)

    -- What an import returns, of the loop that it runs.
    returned :
        (records : List RawRow) (s s' : Db) (res : ImportResult)
        → import_tickets env reg project_id records actor s ≡ (ok res, s')
        → let (r, t) = import_rows env reg project_id actor 2 records (0, []) s in
          (length records ≤ 5000)
          × (res.created ≡ r.0)
          × (res.errors ≡ r.1)
          × (res.failed ≡ length res.errors)
          × (s' ≡ record t { audit_logs = s'.audit_logs })
    unfolding import_tickets ◌>>=◌ Projects.assert_active
    returned records s s' res h =
        let (r, t) = import_rows env reg project_id actor 2 records (0, []) s in
        ground (
          arith,
          record_entry-frame env
              (input create_action project_entity project_id (actor_of actor)
                (some (import_event r.0 (length r.1))))
              t,
        )

    -- If the registered resolver only reads, an import that returns has gone through the records one
    -- by one: each has filed one ticket, with its cells and in the project, or has been refused,
    -- which wrote nothing and noted the reason under the line of that record, the first of which is
    -- line 2. The filed tickets, as many as the result says, and rows of the log are all that the
    -- import wrote; `created` and `failed` add up to the records, of which there are at most 5000.
    pub import_tickets-counts :
        (records : List RawRow) (s s' : Db) (res : ImportResult)
        → import_tickets env reg project_id records actor s ≡ (ok res, s')
        → (added : List Ticket) × (t : Db) × Imported 2 s records added res.errors t
          × (s' ≡ record s { tickets = s.tickets ++ added; audit_logs = s'.audit_logs })
          × (res.created ≡ length added)
          × (res.failed ≡ length res.errors)
          × (res.created + res.failed ≡ length records)
          × (length records ≤ 5000)
          × All (Within 2 (2 + length records)) res.errors
    import_tickets-counts records s s' res h =
        let (r, t) = import_rows env reg project_id actor 2 records (0, []) s in
        let (few, created, errors, failed, frame) = returned records s s' res h in
        let (added, es, k, n, m) = import_rows-Read 2 records (0, []) s in
        let same : res.errors ≡ es = errors ∙ m in
        (
          added,
          t,
          rw same k,
          ground (arith, frame, grown k),
          omega (arith, created, n),
          failed,
          omega (arith, created, n, failed, ap length same, counted k),
          few,
          rw same (lines k),
        )
