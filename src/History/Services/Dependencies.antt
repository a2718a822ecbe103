-- ===== src/History/Services/Dependencies.antt =====
-- Dependencies, their cascades included.
use issueflow.Prelude.{
  ◌==◌, sym, ap, ◌∙◌, ◌≢◌, not, find_one, ==_iff, refl, ◌≡◌, ℕ, arith, Bool, true, false, Option,
  none, some, List, [], ◌∷◌, ◌++◌, map, any, if◌then◌else◌,
}
use issueflow.Entities.{Ticket, TicketDependency}
use issueflow.Store.{Error, raise_if, Db, Env, Result, ok, raise, unexpected, ◌>>=◌}
use issueflow.Tickets.Base
use issueflow.Dependencies
use issueflow.Dependencies.{is_edge, new_dependency}
use issueflow.Prelude.Rows.{find_one_sound}
use issueflow.Tickets.Base.{is_ticket, is_live_ticket}
use issueflow.Api.Session.{find_one-some}
use issueflow.History.Tables.{UniqueKeys, same_row, find_one-mem}
use issueflow.History.Later.{Later, Later_refl}
use issueflow.History.Respects.{
  bind_later, Respects, Respects-pure, Respects-gets, Respects-or_raise, Respects-if, Respects-bind,
  Respects-modify_then, Respects-for_each, Respects-record_entry, Respects-insert_row,
  Respects-transaction, Respects-reads,
}
use issueflow.History.Ends.{Joins, ends, ends-update_where, AllJoin-filter, AllJoin-append_one}
use issueflow.History.Writes.{on_rest, undo_deps}
use issueflow.History.Services.Reading.{ticket_live-Respects}

module _ (env : Env) where
  deleted_ends :
      (ids : List ℕ) (ds : List TicketDependency)
      → map ends (Dependencies.mark_deleted env ids ds) ≡ map ends ds
  unfolding Dependencies.mark_deleted
  deleted_ends ids ds =
      ends-update_where _ (λ d. record d { deleted_at = some env.now; deleted_by_cascade = true })
        (λ d. refl) ds

  restored_ends :
      (ids : List ℕ) (ds : List TicketDependency)
      → map ends (Dependencies.mark_restored env ids ds) ≡ map ends ds
  unfolding Dependencies.mark_restored
  restored_ends ids ds =
      ends-update_where _ (λ d. record d { deleted_at = none; deleted_by_cascade = false })
        (λ d. refl) ds

  pub dependencies_deleted-Respects :
      (ids : List ℕ) (actor : Option ℕ)
      → Respects (Dependencies.cascade_soft_delete_dependencies env ids actor)
  unfolding Dependencies.cascade_soft_delete_dependencies Dependencies.mark_deleted
  dependencies_deleted-Respects ids actor = Respects-bind _ _ (Respects-gets _) λ rows.
      Respects-if _ _ _ (Respects-pure tt) (
        Respects-modify_then _ _ (λ s. on_rest s s.mentions _ (λ u a. rw (deleted_ends _ s.deps) a))
          (Respects-for_each _ rows (λ r. Respects-record_entry env _)))

  pub dependencies_restored-Respects :
      (ids : List ℕ) (actor : Option ℕ)
      → Respects (Dependencies.cascade_restore_dependencies env ids actor)
  unfolding Dependencies.cascade_restore_dependencies Dependencies.mark_restored
  dependencies_restored-Respects ids actor = Respects-bind _ _ (Respects-gets _) λ rows.
      Respects-if _ _ _ (Respects-pure tt) (
        Respects-modify_then _ _
          (λ s. on_rest s s.mentions _ (λ u a. rw (restored_ends _ s.deps) a))
          (Respects-for_each _ rows (λ r. Respects-record_entry env _)))

  -- The insert of a dependency that joins its tickets, whether the index takes it or not.
  insert_later :
      (ticket_id blocked_by : ℕ) (s : Db)
      → (UniqueKeys (λ (t : Ticket). t.id) s.tickets → Joins s.tickets (ticket_id, blocked_by))
      → Later s (Dependencies.insert_dependency env ticket_id blocked_by s).1
  unfolding Dependencies.insert_dependency
  insert_later ticket_id blocked_by s j = go (any (is_edge ticket_id blocked_by) s.deps)
    where
      go :
          (b : Bool)
          → Later s
              (let q : Result Unit × Db = if b then raise unexpected s else (
                ok tt,
                record s { deps = s.deps ++ new_dependency env ticket_id blocked_by s.deps ∷ [] },
              ) in
                q).1
      go true = Later_refl s
      go false = on_rest s s.mentions _ (λ u a.
          AllJoin-append_one s.tickets s.deps (new_dependency env ticket_id blocked_by s.deps) a
            (j u))

  -- The tickets that the checks of `add` have found.
  live_found :
      (id : ℕ) (s s' : Db) (t : Ticket)
      → Base.find_live id s ≡ (ok t, s')
      → (s ≡ s') × (find_one (is_live_ticket id) s.tickets ≡ some t)
  unfolding Base.find_live ◌>>=◌
  live_found id s s' t h = ground arith

  by_id :
      (id : ℕ) (ts : List Ticket) (t : Ticket)
      → UniqueKeys (λ (t : Ticket). t.id) ts
      → find_one (is_live_ticket id) ts ≡ some t
      → find_one (is_ticket id) ts ≡ some t
  by_id id ts t u h =
      let own : t.id ≡ id =
        (==_iff t.id id).0 (ground (arith, find_one_sound (is_live_ticket id) ts h)) in
      let (r, there) =
        find_one-some (is_live_ticket id) (is_ticket id) ts h ((==_iff t.id id).1 own) in
      let same =
        same_row (λ (x : Ticket). x.id) ts r t u (find_one-mem (is_ticket id) ts there)
          (find_one-mem (is_live_ticket id) ts h)
          ((==_iff r.id id).0 (find_one_sound (is_ticket id) ts there) ∙ sym own) in
      there ∙ ap some same

  raised_not :
      (b : Bool) (e : Error) (s s' : Db) → raise_if b e s ≡ (ok tt, s') → (b ≡ false) × (s ≡ s')
  raised_not b e s s' h = ground arith

  add_later :
      (ticket_id blocked_by : ℕ) (actor : Option ℕ) (s : Db)
      → ticket_id ≢ blocked_by
      → Later s (Dependencies.add_in_transaction env ticket_id blocked_by actor s).1
  unfolding Dependencies.add_in_transaction
  add_later ticket_id blocked_by actor s apart =
      bind_later _ _ s ((ticket_live-Respects ticket_id).at s) λ t s1 e1.
        let (same1, found) = live_found ticket_id s s1 t e1 in
        bind_later _ _ s1 ((ticket_live-Respects blocked_by).at s1) λ b s2 e2.
          let (same2, other) = live_found blocked_by s1 s2 b e2 in
          bind_later (raise_if (not (t.project_id == b.project_id)) _) _ s2 (Later_refl s2)
            λ v s3 e3.
              let (one, same3) = raised_not (not (t.project_id == b.project_id)) _ s2 s3 e3 in
              bind_later _ _ s3 (Later_refl s3) λ existing s4 e4.
                let same4 : s3 ≡ s4 = ap (λ r. r.1) e4 in
                bind_later (raise_if existing _) _ s4 (Later_refl s4) λ w s5 e5.
                  let (none_yet, same5) = raised_not existing _ s4 s5 e5 in
                  let here : s1 ≡ s5 = same2 ∙ same3 ∙ same4 ∙ same5 in
                  let project : t.project_id ≡ b.project_id =
                    (==_iff t.project_id b.project_id).0 (ground (arith, one)) in
                  let f1 : find_one (is_live_ticket ticket_id) s5.tickets ≡ some t =
                    rw (same1 ∙ here) at found in
                  let f2 : find_one (is_live_ticket blocked_by) s5.tickets ≡ some b =
                    rw here at other in
                  bind_later _ _ s5
                    (insert_later ticket_id blocked_by s5 (λ u. (
                      apart,
                      t,
                      b,
                      by_id ticket_id s5.tickets t u f1,
                      by_id blocked_by s5.tickets b u f2,
                      project,
                    )))
                    λ x s6 e6. (Respects-insert_row env _).at s6

  pub add-Respects :
      (ticket_id blocked_by : ℕ) (actor : Option ℕ)
      → Respects (Dependencies.add env ticket_id blocked_by actor)
  unfolding Dependencies.add
  add-Respects ticket_id blocked_by actor = record {
    at = λ s. bind_later (raise_if (ticket_id == blocked_by) _) _ s (Later_refl s) λ u s1 e.
        let (other, same) = raised_not (ticket_id == blocked_by) _ s s1 e in
        (Respects-transaction (λ s s'. record s' { deps = s.deps; audit_logs = s.audit_logs })
            (Dependencies.add_in_transaction env ticket_id blocked_by actor) undo_deps
            (record {
              at = λ s.
                  add_later ticket_id blocked_by actor s
                    (λ q. absurd (cc ((==_iff ticket_id blocked_by).1 q)));
            })).at
          s1;
  }

  pub remove-Respects :
      (ticket_id blocked_by : ℕ) (actor : Option ℕ)
      → Respects (Dependencies.remove env ticket_id blocked_by actor)
  unfolding Dependencies.remove
  remove-Respects ticket_id blocked_by actor = Respects-bind _ _ (ticket_live-Respects _) λ t.
      Respects-bind _ _ (Respects-gets _) λ found. Respects-bind _ _ (Respects-or_raise _ _) λ d.
        Respects-modify_then _ _
          (λ s. on_rest s s.mentions _ (λ u a. AllJoin-filter s.tickets _ s.deps a))
          (Respects-record_entry env _)

  pub list_blockers-Respects : (ticket_id : ℕ) → Respects (Dependencies.list_blockers ticket_id)
  unfolding Dependencies.list_blockers Base.assert_active ◌>>=◌
  list_blockers-Respects ticket_id = Respects-reads _ (λ s. ground arith)
