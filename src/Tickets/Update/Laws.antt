-- ===== src/Tickets/Update/Laws.antt =====
-- What `update` promises: its checks, its effect, and what a failed call leaves behind.
use issueflow.Prelude.{
  ℕ, ◌≡◌, ◌≢◌, refl, true, Option, none, some, arith, find_one, update_where, ==_iff, ap, ◌∙◌,
}
use issueflow.Prelude.Rows.{find_one_sound, find_one-update_where_const}
use issueflow.Enums.{done}
use issueflow.Entities.{Ticket}
use issueflow.Store.{Db, Env, Error, ok, err, version_mismatch, ◌>>=◌}
use issueflow.Tickets.Base.{Registered, is_ticket, assert_version_matches}
use issueflow.Tickets.Update.{UpdateTicketDto, apply_update, update, assert_editable}
use issueflow.Tickets.Update.Rules.{
  IsQuiet, Kept, apply_update-Kept, apply_update-tickets, apply_update-error,
}

-- The stored row that a successful call has passed through the checks.
pub record Checked (id version : ℕ) (s : Db) (row : Ticket) : Type 0 where
  pub found : find_one (is_ticket id) s.tickets ≡ some row
  pub live : row.deleted_at ≡ none
  pub not_done : row.status ≢ done
  pub current : row.version ≡ version

module _ (env : Env) (reg : Registered) where
  pub data Passed (id : ℕ) (dto : UpdateTicketDto) (actor : Option ℕ) (version : ℕ) (s : Db)
      (t : Ticket) (s' : Db) : Type 0 where
    passed :
        (row : Ticket)
        → Checked id version s row
        → apply_update env reg row dto actor s ≡ (ok t, s')
        → Passed id dto actor version s t s'

  pub update-Passed :
      (id : ℕ) (dto : UpdateTicketDto) (actor : Option ℕ) (version : ℕ) (s : Db) {t : Ticket}
      {s' : Db}
      → update env reg id dto actor version s ≡ (ok t, s')
      → Passed id dto actor version s t s'
  unfolding update assert_editable assert_version_matches ◌>>=◌
  update-Passed id dto actor version s {t} {s'} h = go (find_one (is_ticket id) s.tickets) refl
    where
      go :
          (o : Option Ticket)
          → find_one (is_ticket id) s.tickets ≡ o
          → Passed id dto actor version s t s'
      go none e = ground arith
      go (some row) e = passed row (ground arith) (ground arith)

  refuse_stale :
      (id : ℕ) (dto : UpdateTicketDto) (actor : Option ℕ) (version : ℕ) (s : Db) (t : Ticket)
      → find_one (is_ticket id) s.tickets ≡ some t
      → t.deleted_at ≡ none
      → t.status ≢ done
      → t.version ≢ version
      → update env reg id dto actor version s
        ≡ (err (version_mismatch "Ticket" (some t.version)), s)
  unfolding update assert_editable assert_version_matches ◌>>=◌
  refuse_stale id dto actor version s t e live open_ moved = ground arith

  -- A call that fails, by whichever check, leaves the database as it was, if the registered
  -- blockers resolver only reads.
  pub update-error :
      (quiet : IsQuiet reg) (id : ℕ) (dto : UpdateTicketDto) (actor : Option ℕ) (version : ℕ)
      (s : Db) (e : Error) {s' : Db}
      → update env reg id dto actor version s ≡ (err e, s')
      → s' ≡ s
  unfolding update assert_editable assert_version_matches ◌>>=◌
  update-error quiet id dto actor version s e {s'} h = go (find_one (is_ticket id) s.tickets) refl
    where
      go : (o : Option Ticket) → find_one (is_ticket id) s.tickets ≡ o → s' ≡ s
      go none p = ground arith
      go (some row) p =
          ground (arith, apply_update-error reg quiet env row dto actor s {e = e} {s' = s'})

  -- If the registered blockers resolver only reads, a successful `update` found the stored row, live,
  -- not DONE and at the version expected, keeps what no field of the dto can change, never moves the
  -- status back, and has written the ticket it returns in the place of that row; every other ticket
  -- and every table but the audit log stay as they were.
  pub update-Checked :
      (quiet : IsQuiet reg) (id : ℕ) (dto : UpdateTicketDto) (actor : Option ℕ) (version : ℕ)
      (s : Db) (t : Ticket) (s' : Db)
      → update env reg id dto actor version s ≡ (ok t, s')
      → (row : Ticket) × Checked id version s row
        × Kept row t
        × (s' ≡ record s {
          tickets = update_where (is_ticket id) (λ r. t) s.tickets;
          audit_logs = s'.audit_logs;
        })
  update-Checked quiet id dto actor version s t s' h =
      elim (update-Passed id dto actor version s h) [
        | passed row c a ↦
            let same : row.id ≡ id =
              (==_iff row.id id).0 (find_one_sound (is_ticket id) s.tickets c.found) in
            (
              row,
              c,
              apply_update-Kept env reg row dto actor s a,
              rw same at (apply_update-tickets reg quiet env row dto actor s a),
            )
      ]

  -- What a successful `update` returns is what is stored.
  pub update-find_one :
      (quiet : IsQuiet reg) (id : ℕ) (dto : UpdateTicketDto) (actor : Option ℕ) (version : ℕ)
      (s : Db) (t : Ticket) (s' : Db)
      → update env reg id dto actor version s ≡ (ok t, s')
      → find_one (is_ticket id) s'.tickets ≡ some t
  update-find_one quiet id dto actor version s t s' h =
      let (row, c, k, w) = update-Checked quiet id dto actor version s t s' h in
      let same : row.id ≡ id =
        (==_iff row.id id).0 (find_one_sound (is_ticket id) s.tickets c.found) in
      let own : is_ticket id t ≡ true = (==_iff t.id id).1 (cc (k.id)) in
      rw (ap (λ (d : Db). d.tickets) w)
        (find_one-update_where_const (is_ticket id) t own s.tickets c.found)

  -- Of two updates that expect the same version, the second is refused with the version that the
  -- first has written, and changes nothing: if the first one's save has moved the version on and has
  -- not closed the ticket, and the registered blockers resolver only reads.
  pub update-update_stale :
      (quiet : IsQuiet reg) (id : ℕ) (dto dto' : UpdateTicketDto) (actor actor' : Option ℕ)
      (version : ℕ) (s : Db) (t : Ticket) (s' : Db)
      → update env reg id dto actor version s ≡ (ok t, s')
      → t.version ≢ version
      → t.status ≢ done
      → update env reg id dto' actor' version s'
        ≡ (err (version_mismatch "Ticket" (some t.version)), s')
  update-update_stale quiet id dto dto' actor actor' version s t s' h moved open_ =
      let (row, c, k, w) = update-Checked quiet id dto actor version s t s' h in
      refuse_stale id dto' actor' version s' t (update-find_one quiet id dto actor version s t s' h)
        (k.deleted_at ∙ c.live) open_ moved
