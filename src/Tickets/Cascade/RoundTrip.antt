-- ===== src/Tickets/Cascade/RoundTrip.antt =====
-- Deleting a project and restoring it, seen on its tickets.
use mathlib.Core.List.{Memᴰ}
use issueflow.Prelude.{
  ℕ, ◌≡◌, refl, sym, ap, ◌∙◌, true, false, Bool, Option, none, some, List, [], ◌∷◌, arith, filter,
  not, ◌==◌, ◌&&◌, is_empty, Bool-cases, inl, inr, if◌then◌else◌, update_where,
}
use issueflow.Prelude.Rows.{update_where-none}
use issueflow.Enums.{delete_action, restore_action}
use issueflow.Entities.{Ticket, is_null}
use issueflow.Store.{Db, Env, ok, pure, ◌>>=◌, ◌>>◌}
use issueflow.Keeps.{Keeps, Keeps-bind, Keeps-audit_rows}
use issueflow.Tickets.Ids.{
  UniqueIds, ids_of, contains-ids_of, UniqueIds-update_where, update_where-agree,
}
use issueflow.Tickets.Cascade.{
  mark_deleted, mark_restored, run_cascade_soft_deletes, run_cascade_restores,
  record_cascade_audit_rows, delete_all, restore_all, cascade_soft_delete_for_project,
  cascade_restore_for_project,
}
use issueflow.App.{app}
use issueflow.App.Frames.{tickets_of, deletes-Keeps, restores-Keeps}

abbrev pub live_in : ℕ → Ticket → Bool
live_in project_id t = (t.project_id == project_id) && is_null t.deleted_at

abbrev pub cascaded_in : ℕ → Ticket → Bool
cascaded_in project_id t =
    (t.project_id == project_id) && t.deleted_by_cascade && not (is_null t.deleted_at)

module _ (env : Env) (project_id : ℕ) (actor : Option ℕ) where
  abbrev pub deleted : Ticket → Ticket
  deleted t = record t {
    deleted_by_cascade = true;
    deleted_at = some env.now;
    version = env.bulk_version t.version;
  }

  abbrev pub restored : Ticket → Ticket
  restored t = record t {
    deleted_by_cascade = false;
    deleted_at = none;
    version = env.bulk_version t.version;
  }

  rest_of_delete :
      (ids : List ℕ)
      → Keeps tickets_of (
          run_cascade_soft_deletes env (app env).cascade ids actor
          >> record_cascade_audit_rows env (app env).cascade ids delete_action actor project_id)
  unfolding record_cascade_audit_rows
  rest_of_delete ids =
      Keeps-bind _ _ (deletes-Keeps env ids actor) (λ u. Keeps-audit_rows env _ ids (λ s l. refl))

  rest_of_restore :
      (ids : List ℕ)
      → Keeps tickets_of (
          run_cascade_restores env (app env).cascade ids actor
          >> record_cascade_audit_rows env (app env).cascade ids restore_action actor project_id)
  unfolding record_cascade_audit_rows
  rest_of_restore ids =
      Keeps-bind _ _ (restores-Keeps env ids actor) (λ u. Keeps-audit_rows env _ ids (λ s l. refl))

  delete_all-tickets :
      (ids : List ℕ) (s : Db)
      → (delete_all env (app env).cascade project_id actor ids s).1.tickets
        ≡ mark_deleted env (app env).cascade ids s.tickets
  delete_all-tickets ids s =
      unfold delete_all ◌>>=◌ in
      (rest_of_delete ids).at
        (record s { tickets = mark_deleted env (app env).cascade ids s.tickets })

  restore_all-tickets :
      (ids : List ℕ) (s : Db)
      → (restore_all env (app env).cascade project_id actor ids s).1.tickets
        ≡ mark_restored env (app env).cascade ids s.tickets
  restore_all-tickets ids s =
      unfold restore_all ◌>>=◌ in
      (rest_of_restore ids).at
        (record s { tickets = mark_restored env (app env).cascade ids s.tickets })

  deletes_from :
      (rows : List Ticket) (s : Db)
      → (if is_empty rows
            then pure tt
            else delete_all env (app env).cascade project_id actor (ids_of rows))
          s
        ≡ (if is_empty rows
            then (ok tt, s)
            else delete_all env (app env).cascade project_id actor (ids_of rows) s)
  deletes_from [] s = refl
  deletes_from (r ∷ rows) s = refl

  restores_from :
      (rows : List Ticket) (s : Db)
      → (if is_empty rows
            then pure tt
            else restore_all env (app env).cascade project_id actor (ids_of rows))
          s
        ≡ (if is_empty rows
            then (ok tt, s)
            else restore_all env (app env).cascade project_id actor (ids_of rows) s)
  restores_from [] s = refl
  restores_from (r ∷ rows) s = refl

  module _ (s : Db) (unique : UniqueIds s.tickets) where
    -- The bulk update by ids is an update of the live tickets of the project.
    pub deletes_live :
        (cascade_soft_delete_for_project env (app env).cascade project_id actor s).1.tickets
        ≡ update_where (live_in project_id) deleted s.tickets
    unfolding cascade_soft_delete_for_project ◌>>=◌
    deletes_live =
        let rows = filter (live_in project_id) s.tickets in
        let marked : mark_deleted env (app env).cascade (ids_of rows) s.tickets
            ≡ update_where (live_in project_id) deleted s.tickets =
          unfold mark_deleted in
          update_where-agree _ _ deleted s.tickets
            (λ r m. contains-ids_of (live_in project_id) s.tickets r unique m) in
        elim (Bool-cases (is_empty rows)) [
          | inl none_live ↦ rw (deletes_from rows s) (
              rw none_live
                (sym (update_where-none (live_in project_id) deleted s.tickets none_live)))
          | inr live ↦
              rw (deletes_from rows s) (rw live (delete_all-tickets (ids_of rows) s ∙ marked))
        ]

    pub restores_cascaded :
        (cascade_restore_for_project env (app env).cascade project_id actor s).1.tickets
        ≡ update_where (cascaded_in project_id) restored s.tickets
    unfolding cascade_restore_for_project ◌>>=◌
    restores_cascaded =
        let rows = filter (cascaded_in project_id) s.tickets in
        let marked : mark_restored env (app env).cascade (ids_of rows) s.tickets
            ≡ update_where (cascaded_in project_id) restored s.tickets =
          unfold mark_restored in
          update_where-agree _ _ restored s.tickets
            (λ r m. contains-ids_of (cascaded_in project_id) s.tickets r unique m) in
        elim (Bool-cases (is_empty rows)) [
          | inl none_there ↦ rw (restores_from rows s) (
              rw none_there
                (sym (update_where-none (cascaded_in project_id) restored s.tickets none_there)))
          | inr there ↦
              rw (restores_from rows s) (rw there (restore_all-tickets (ids_of rows) s ∙ marked))
        ]

-- What a deletion and a restoration leave of a ticket that was live: all but its version.
abbrev bumped : Env → Env → Ticket → Ticket
bumped env later t = record t { version = later.bulk_version (env.bulk_version t.version) }

marks_cancel :
    (env later : Env) (project_id : ℕ) (actor actor' : Option ℕ) (rows : List Ticket)
    → ((t : Ticket) → Memᴰ t rows → t.project_id ≡ project_id → t.deleted_by_cascade ≡ false)
    → update_where
        (cascaded_in project_id)
        (restored later project_id actor')
        (update_where (live_in project_id) (deleted env project_id actor) rows)
      ≡ update_where (live_in project_id) (bumped env later) rows
unfolding update_where
marks_cancel env later project_id actor actor' [] clean = refl
marks_cancel env later project_id actor actor' (t ∷ rows) clean = ground (
  arith,
  clean t (Memᴰ.head refl),
  marks_cancel env later project_id actor actor' rows (λ r m. clean r (Memᴰ.tail m)),
)

-- The cascade of a project's restoration brings its tickets back to what they were before the
-- cascade of its deletion, but for the version of those that were live: tickets that had been
-- deleted one by one stay deleted, and no ticket of another project changes. The ids of the tickets
-- are unique, and none of the project is marked as deleted by a cascade before.
pub cascade_restore_for_project-cascade_soft_delete :
    (env later : Env) (project_id : ℕ) (actor actor' : Option ℕ) (s : Db)
    → UniqueIds s.tickets
    → ((t : Ticket) → Memᴰ t s.tickets → t.project_id ≡ project_id → t.deleted_by_cascade ≡ false)
    → let s' = (cascade_soft_delete_for_project env (app env).cascade project_id actor s).1 in
      (cascade_restore_for_project later (app later).cascade project_id actor' s').1.tickets
      ≡ update_where
          (live_in project_id)
          (λ t. record t { version = later.bulk_version (env.bulk_version t.version) })
          s.tickets
cascade_restore_for_project-cascade_soft_delete env later project_id actor actor' s unique clean =
    let s' = (cascade_soft_delete_for_project env (app env).cascade project_id actor s).1 in
    let e = deletes_live env project_id actor s unique in
    let unique' : UniqueIds s'.tickets = rw e (
      UniqueIds-update_where (live_in project_id) (deleted env project_id actor) (λ t. refl)
        s.tickets unique) in
    restores_cascaded later project_id actor' s' unique'
    ∙ ap (update_where (cascaded_in project_id) (restored later project_id actor')) e
    ∙ marks_cancel env later project_id actor actor' s.tickets clean
