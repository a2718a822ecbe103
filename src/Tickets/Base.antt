-- ===== src/Tickets/Base.antt =====
-- tickets/tickets.service.ts: what other services register with the tickets service, and its
-- queries.
use issueflow.Prelude.{
  ℕ, String, ◌==◌, ◌&&◌, not, Bool, Option, none, some, List, filter, find_one, any,
}
use issueflow.Enums.{ticket_entity, project_entity}
use issueflow.Entities.{Ticket, is_null}
use issueflow.Store.{Db, Exec, not_found, version_mismatch, gets, or_raise, raise_if, ◌>>=◌, ◌>>◌}
use issueflow.Projects

abbrev pub CascadeHandler : Type 0
CascadeHandler = List ℕ → Option ℕ → Exec Unit

-- `Partial<TicketCascadeTarget>`.
pub record TicketCascadeTarget : Type 0 where
  pub cascade_soft_delete_comments : Option CascadeHandler
  pub cascade_soft_delete_dependencies : Option CascadeHandler
  pub cascade_soft_delete_attachments : Option CascadeHandler
  pub cascade_restore_comments : Option CascadeHandler
  pub cascade_restore_dependencies : Option CascadeHandler
  pub cascade_restore_attachments : Option CascadeHandler

-- The private fields that the register methods fill.
pub record Registered : Type 0 where
  pub cascade : TicketCascadeTarget
  pub blockers : Option (ℕ → Exec Unit)
  pub auto_assign : Option (ℕ → Exec (Option ℕ))

abbrev pub nothing_registered : Registered
nothing_registered = record {
  cascade = record {
    cascade_soft_delete_comments = none;
    cascade_soft_delete_dependencies = none;
    cascade_soft_delete_attachments = none;
    cascade_restore_comments = none;
    cascade_restore_dependencies = none;
    cascade_restore_attachments = none;
  };
  blockers = none;
  auto_assign = none;
}

-- `b` where it is given, `a` otherwise: a key of the spread `{...a, ...b }`.
abbrev pub spread : {A : Type 0} → Option A → Option A → Option A
spread a none = a
spread a (some b) = some b

unfoldable pub register_cascade_target : TicketCascadeTarget → Registered → Registered
register_cascade_target c r = record r {
  cascade = record {
    cascade_soft_delete_comments =
        spread r.cascade.cascade_soft_delete_comments c.cascade_soft_delete_comments;
    cascade_soft_delete_dependencies =
        spread r.cascade.cascade_soft_delete_dependencies c.cascade_soft_delete_dependencies;
    cascade_soft_delete_attachments =
        spread r.cascade.cascade_soft_delete_attachments c.cascade_soft_delete_attachments;
    cascade_restore_comments = spread r.cascade.cascade_restore_comments c.cascade_restore_comments;
    cascade_restore_dependencies =
        spread r.cascade.cascade_restore_dependencies c.cascade_restore_dependencies;
    cascade_restore_attachments =
        spread r.cascade.cascade_restore_attachments c.cascade_restore_attachments;
  };
}

unfoldable pub register_blockers_resolver : (ℕ → Exec Unit) → Registered → Registered
register_blockers_resolver f r = record r { blockers = some f }

unfoldable pub register_auto_assign_resolver : (ℕ → Exec (Option ℕ)) → Registered → Registered
register_auto_assign_resolver f r = record r { auto_assign = some f }

abbrev pub is_live_ticket : ℕ → Ticket → Bool
is_live_ticket id t = (t.id == id) && is_null t.deleted_at

abbrev pub is_ticket : ℕ → Ticket → Bool
is_ticket id t = t.id == id

unfoldable pub find_all_for_project : ℕ → Exec (List Ticket)
find_all_for_project project_id = do
  Projects.assert_active project_id
  gets λ s. filter (λ t. (t.project_id == project_id) && is_null t.deleted_at) s.tickets

unfoldable pub find_all_deleted_for_project : ℕ → Exec (List Ticket)
find_all_deleted_for_project project_id = do
  exists ← gets (Projects.exists_including_deleted project_id)
  raise_if (not exists) (not_found project_entity project_id)
  gets λ s. filter (λ t. (t.project_id == project_id) && not (is_null t.deleted_at)) s.tickets

unfoldable pub find_live : ℕ → Exec Ticket
find_live id = do
  found ← gets (λ s. find_one (is_live_ticket id) s.tickets)
  or_raise found (not_found ticket_entity id)

unfoldable pub exists_and_active : ℕ → Db → Bool
exists_and_active id s = any (is_live_ticket id) s.tickets

unfoldable pub assert_active : ℕ → Exec Unit
unfolding exists_and_active
assert_active id s = raise_if (not (exists_and_active id s)) (not_found ticket_entity id) s

-- common/utils/version.ts
unfoldable pub assert_version_matches : ℕ → ℕ → String → Exec Unit
assert_version_matches version expected name =
    raise_if (not (version == expected)) (version_mismatch name (some version))
