-- ===== src/Dependencies/Blocking.antt =====
-- The blockers of a ticket gate its change to DONE.
use mathlib.Core.List.{Memᴰ}
use issueflow.Prelude.{
  ℕ, ◌≡◌, refl, true, false, Option, none, List, [], ◌∷◌, arith, contains, map, is_empty, ==_iff,
  ==_refl, ◌&&◌, not,
}
use issueflow.Prelude.Rows.{filter-none, mem-filter, is_empty-map, contains-filter, find_one_sound}
use issueflow.Enums.{done, status_eq, status_eq_sound}
use issueflow.Entities.{Ticket, TicketDependency, is_null}
use issueflow.Store.{Db, Env, ok}
use issueflow.Tickets.Base.{is_ticket}
use issueflow.Tickets.Update.{UpdateTicketDto, update, resolve_blockers}
use issueflow.Tickets.Update.Rules.{IsQuiet, apply_update-resolved}
use issueflow.Tickets.Update.Laws.{passed, update-Passed}
use issueflow.Dependencies.{
  live_deps_of, blocker_rows, unresolved, assert_blockers_resolved_for_done,
}
use issueflow.App.{app}

-- The resolver only reads.
pub app-IsQuiet : (env : Env) → IsQuiet (app env)
unfolding app resolve_blockers assert_blockers_resolved_for_done
app-IsQuiet env n s = ground arith

module _ (s : Db) (d : TicketDependency) (b : Ticket) where
  -- The blocker of a live dependency is among the rows that the resolver reads.
  resolver_reads :
      Memᴰ d s.deps
      → d.deleted_at ≡ none
      → b.id ≡ d.blocked_by
      → b.deleted_at ≡ none
      → contains (map (λ r. r.blocked_by) (live_deps_of d.ticket_id s)) b.id && is_null b.deleted_at
        ≡ true
  resolver_reads m live same open_ =
      let here : contains (map (λ r. r.blocked_by) (live_deps_of d.ticket_id s)) d.blocked_by
          ≡ true =
        contains-filter _ (λ r. r.blocked_by) s.deps d m (ground (arith, ==_refl d.ticket_id)) in
      ground (arith, here)

nonempty :
    (rows : List TicketDependency) (n : ℕ)
    → contains (map (λ r. r.blocked_by) rows) n ≡ true
    → is_empty rows ≡ false
unfolding contains
nonempty [] n h = cc
nonempty (r ∷ rows) n h = refl

asks :
    (env : Env) (id : ℕ) (s : Db)
    → (resolve_blockers (app env) id s).0 ≡ ok tt
    → (assert_blockers_resolved_for_done id s).0 ≡ ok tt
unfolding app resolve_blockers
asks env id s h = h

-- The resolver returns only if every live blocker of the ticket is DONE.
pub blockers_done :
    (id : ℕ) (s : Db) (d : TicketDependency) (b : Ticket)
    → (assert_blockers_resolved_for_done id s).0 ≡ ok tt
    → Memᴰ d s.deps
    → d.ticket_id ≡ id
    → d.deleted_at ≡ none
    → Memᴰ b s.tickets
    → b.id ≡ d.blocked_by
    → b.deleted_at ≡ none
    → b.status ≡ done
unfolding assert_blockers_resolved_for_done
blockers_done id s d b h md own live mb same open_ =
    let rows = live_deps_of id s in
    let read : contains (map (λ r. r.blocked_by) rows) b.id && is_null b.deleted_at ≡ true =
      rw (← own) (resolver_reads s d b md live same open_) in
    let some_deps : is_empty rows ≡ false = nonempty rows b.id (ground (arith, read)) in
    let none_left : is_empty (unresolved rows s) ≡ true = ground (arith, some_deps) in
    let settled : not (status_eq b.status done) ≡ false =
      filter-none (λ (t : Ticket). not (status_eq t.status done)) (blocker_rows rows s) b
        (unfold unresolved in rw is_empty-map at none_left) (mem-filter _ s.tickets b mb read) in
    status_eq_sound b.status done (ground (arith, settled))

-- A ticket that `update` of the running application brings to DONE has no live dependency on a live
-- ticket that is not DONE.
pub update-blockers_done :
    (env : Env) (id : ℕ) (dto : UpdateTicketDto) (actor : Option ℕ) (version : ℕ) (s : Db)
    (t : Ticket) (s' : Db) (d : TicketDependency) (b : Ticket)
    → update env (app env) id dto actor version s ≡ (ok t, s')
    → t.status ≡ done
    → Memᴰ d s.deps
    → d.ticket_id ≡ id
    → d.deleted_at ≡ none
    → Memᴰ b s.tickets
    → b.id ≡ d.blocked_by
    → b.deleted_at ≡ none
    → b.status ≡ done
update-blockers_done env id dto actor version s t s' d b h end_ md own live mb same open_ =
    elim (update-Passed env (app env) id dto actor version s h) [
      | passed row c a ↦
          let here : row.id ≡ id =
            (==_iff row.id id).0 (find_one_sound (is_ticket id) s.tickets c.found) in
          let asked = apply_update-resolved env (app env) row dto actor s a c.not_done end_ in
          blockers_done id s d b (asks env id s (rw here at asked)) md own live mb same open_
    ]
