-- ===== src/Tickets/Update/Rules.antt =====
-- What a successful `update` has established, on every path.
use issueflow.Prelude.{ℕ, ◌≤◌, ◌≡◌, ◌≢◌, refl, inl, inr, Option, arith, update_where}
use issueflow.Enums.{update_action, ticket_entity, done, status_index}
use issueflow.Entities.{Ticket}
use issueflow.Store.{Error, Db, Env, ok, err, >>=-eq-ok, bound, >>=-eq-err, ◌>>=◌}
use issueflow.Users
use issueflow.Tickets.Base.{Registered, is_ticket}
use issueflow.Audit.{record_entry-frame, input, actor_of, record_entry}
use issueflow.Tickets.Update.{
  UpdateTicketDto, apply_status_change, resolve_blockers, apply_assignee_change,
  apply_scalar_patches, save_with_version_guard, apply_update, build_update_audit_metadata,
}

-- What a patch leaves as it was.
pub record Kept (row t : Ticket) : Type 0 where
  pub id : t.id ≡ row.id
  pub project_id : t.project_id ≡ row.project_id
  pub deleted_at : t.deleted_at ≡ row.deleted_at
  pub created_at : t.created_at ≡ row.created_at
  pub deleted_by_cascade : t.deleted_by_cascade ≡ row.deleted_by_cascade
  pub forward : status_index row.status ≤ status_index t.status

pub status_change-Kept :
    (reg : Registered) (t : Ticket) (dto : UpdateTicketDto) (s : Db) {t' : Ticket} {s' : Db}
    → apply_status_change reg t dto s ≡ (ok t', s')
    → Kept t t'
unfolding apply_status_change ◌>>=◌
status_change-Kept reg t dto s h = ground arith

pub assignee_change-Kept :
    (t : Ticket) (dto : UpdateTicketDto) (s : Db) {t' : Ticket} {s' : Db}
    → apply_assignee_change t dto s ≡ (ok t', s')
    → Kept t t'
unfolding apply_assignee_change Users.assert_active ◌>>=◌
assignee_change-Kept t dto s h = ground arith

save-Kept :
    (env : Env) (row t : Ticket) (s : Db) {t' : Ticket} {s' : Db}
    → save_with_version_guard env row t s ≡ (ok t', s')
    → Kept t t'
unfolding save_with_version_guard ◌>>=◌
save-Kept env row t s h = ground arith

pub patches-Kept : (t : Ticket) (dto : UpdateTicketDto) → Kept t (apply_scalar_patches t dto)
unfolding apply_scalar_patches
patches-Kept t dto = ground arith

pub Kept-trans : {a b c : Ticket} → Kept a b → Kept b c → Kept a c
Kept-trans p q = ground arith

pub apply_update-Kept :
    (env : Env) (reg : Registered) (row : Ticket) (dto : UpdateTicketDto) (actor : Option ℕ)
    (s : Db) {t : Ticket} {s' : Db}
    → apply_update env reg row dto actor s ≡ (ok t, s')
    → Kept row t
unfolding apply_update
apply_update-Kept env reg row dto actor s {t} h =
    elim (>>=-eq-ok (apply_status_change reg row dto) _ s h) [
      | bound moved s1 e1 h1 ↦ elim (>>=-eq-ok (apply_assignee_change moved dto) _ s1 h1) [
        | bound placed s2 e2 h2 ↦
            elim (>>=-eq-ok (save_with_version_guard env row (apply_scalar_patches placed dto)) _ s2
              h2) [
                | bound saved s3 e3 h3 ↦ elim (>>=-eq-ok (record_entry env _) _ s3 h3) [
                  | bound u s4 e4 h4 ↦
                      let same : saved ≡ t = cc in
                      rw (← same) (
                        Kept-trans (status_change-Kept reg row dto s e1) (
                          Kept-trans (assignee_change-Kept moved dto s1 e2)
                            (Kept-trans (patches-Kept placed dto) (save-Kept env row _ s2 e3))))
                ]
              ]
      ]
    ]

-- The registered resolver only reads.
abbrev pub IsQuiet : Registered → Type 0
IsQuiet reg = (n : ℕ) (s : Db) → (resolve_blockers reg n s).1 ≡ s

module _ (reg : Registered) (quiet : IsQuiet reg) where
  pub status_change-reads :
      (t : Ticket) (dto : UpdateTicketDto) (s : Db) → (apply_status_change reg t dto s).1 ≡ s
  unfolding apply_status_change ◌>>=◌
  status_change-reads t dto s = ground (arith, quiet t.id s)

  pub assignee_change-reads :
      (t : Ticket) (dto : UpdateTicketDto) (s : Db) → (apply_assignee_change t dto s).1 ≡ s
  unfolding apply_assignee_change Users.assert_active ◌>>=◌
  assignee_change-reads t dto s = ground arith

  save-error :
      (env : Env) (row t : Ticket) (s : Db) {e : Error} {s' : Db}
      → save_with_version_guard env row t s ≡ (err e, s')
      → s' ≡ s
  unfolding save_with_version_guard ◌>>=◌
  save-error env row t s h = ground arith

  save-tickets :
      (env : Env) (row t : Ticket) (s : Db) {t' : Ticket} {s' : Db}
      → save_with_version_guard env row t s ≡ (ok t', s')
      → s' ≡ record s { tickets = update_where (is_ticket t.id) (λ r. t') s.tickets }
  unfolding save_with_version_guard ◌>>=◌
  save-tickets env row t s h = ground arith

  -- A successful `update` writes the ticket it returns over the row, and nothing else but the log.
  pub apply_update-tickets :
      (env : Env) (row : Ticket) (dto : UpdateTicketDto) (actor : Option ℕ) (s : Db) {t : Ticket}
      {s' : Db}
      → apply_update env reg row dto actor s ≡ (ok t, s')
      → s' ≡ record s {
        tickets = update_where (is_ticket row.id) (λ r. t) s.tickets;
        audit_logs = s'.audit_logs;
      }
  unfolding apply_update
  apply_update-tickets env row dto actor s {t} {s'} h =
      elim (>>=-eq-ok (apply_status_change reg row dto) _ s h) [
        | bound moved s1 e1 h1 ↦ elim (>>=-eq-ok (apply_assignee_change moved dto) _ s1 h1) [
          | bound placed s2 e2 h2 ↦
              elim (>>=-eq-ok (save_with_version_guard env row (apply_scalar_patches placed dto)) _
                s2 h2) [
                  | bound saved s3 e3 h3 ↦ elim (>>=-eq-ok (record_entry env _) _ s3 h3) [
                    | bound u s4 e4 h4 ↦
                        let same1 : s1 ≡ s = cc (status_change-reads row dto s) in
                        let same2 : s2 ≡ s1 = cc (assignee_change-reads moved dto s1) in
                        let id1 : (apply_scalar_patches placed dto).id ≡ row.id = cc (
                          (status_change-Kept reg row dto s e1).id,
                          (assignee_change-Kept moved dto s1 e2).id,
                          (patches-Kept placed dto).id,
                        ) in
                        ground (
                          arith,
                          save-tickets env row _ s2 e3,
                          record_entry-frame env
                              (input update_action ticket_entity saved.id (actor_of actor)
                                (build_update_audit_metadata row.status row.priority saved))
                              s3,
                          id1,
                          same1,
                          same2,
                        )
                  ]
                ]
        ]
      ]

  -- No error leaves anything behind.
  pub apply_update-error :
      (env : Env) (row : Ticket) (dto : UpdateTicketDto) (actor : Option ℕ) (s : Db) {e : Error}
      {s' : Db}
      → apply_update env reg row dto actor s ≡ (err e, s')
      → s' ≡ s
  unfolding apply_update
  apply_update-error env row dto actor s h =
      elim (>>=-eq-err (apply_status_change reg row dto) _ s h) [
        | inl p ↦ cc (status_change-reads row dto s)
        | inr (moved, s1, e1, h1) ↦ elim (>>=-eq-err (apply_assignee_change moved dto) _ s1 h1) [
          | inl p ↦ cc (status_change-reads row dto s, assignee_change-reads moved dto s1)
          | inr (placed, s2, e2, h2) ↦
              elim (>>=-eq-err (save_with_version_guard env row _) _ s2 h2) [
                | inl p ↦ cc (
                  status_change-reads row dto s,
                  assignee_change-reads moved dto s1,
                  save-error env row _ s2 p,
                )
                | inr (saved, s3, e3, h3) ↦ elim (>>=-eq-err (record_entry env _) _ s3 h3) [
                  | inl p ↦ cc (
                      (record_entry-frame env
                        (input update_action ticket_entity saved.id (actor_of actor)
                          (build_update_audit_metadata row.status row.priority saved))
                        s3).0)
                  | inr (u, s4, e4, h4) ↦ cc
                ]
              ]
        ]
      ]

-- A change to DONE has asked the resolver, which returned.
status_change-resolved :
    (reg : Registered) (t : Ticket) (dto : UpdateTicketDto) (s : Db) {t' : Ticket} {s' : Db}
    → apply_status_change reg t dto s ≡ (ok t', s')
    → t.status ≢ done
    → t'.status ≡ done
    → (resolve_blockers reg t.id s).0 ≡ ok tt
unfolding apply_status_change ◌>>=◌
status_change-resolved reg t dto s h start end_ = ground arith

assignee_change-status :
    (t : Ticket) (dto : UpdateTicketDto) (s : Db) {t' : Ticket} {s' : Db}
    → apply_assignee_change t dto s ≡ (ok t', s')
    → t'.status ≡ t.status
unfolding apply_assignee_change Users.assert_active ◌>>=◌
assignee_change-status t dto s h = ground arith

save-status :
    (env : Env) (row t : Ticket) (s : Db) {t' : Ticket} {s' : Db}
    → save_with_version_guard env row t s ≡ (ok t', s')
    → t'.status ≡ t.status
unfolding save_with_version_guard ◌>>=◌
save-status env row t s h = ground arith

patches-status :
    (t : Ticket) (dto : UpdateTicketDto) → (apply_scalar_patches t dto).status ≡ t.status
unfolding apply_scalar_patches
patches-status t dto = refl

pub apply_update-resolved :
    (env : Env) (reg : Registered) (row : Ticket) (dto : UpdateTicketDto) (actor : Option ℕ)
    (s : Db) {t : Ticket} {s' : Db}
    → apply_update env reg row dto actor s ≡ (ok t, s')
    → row.status ≢ done
    → t.status ≡ done
    → (resolve_blockers reg row.id s).0 ≡ ok tt
unfolding apply_update
apply_update-resolved env reg row dto actor s {t} h start end_ =
    elim (>>=-eq-ok (apply_status_change reg row dto) _ s h) [
      | bound moved s1 e1 h1 ↦ elim (>>=-eq-ok (apply_assignee_change moved dto) _ s1 h1) [
        | bound placed s2 e2 h2 ↦
            elim (>>=-eq-ok (save_with_version_guard env row (apply_scalar_patches placed dto)) _ s2
              h2) [
                | bound saved s3 e3 h3 ↦ elim (>>=-eq-ok (record_entry env _) _ s3 h3) [
                  | bound u s4 e4 h4 ↦ status_change-resolved reg row dto s e1 start (
                      cc (
                        assignee_change-status moved dto s1 e2,
                        patches-status placed dto,
                        save-status env row _ s2 e3,
                      ))
                ]
              ]
      ]
    ]
