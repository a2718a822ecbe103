-- ===== src/AutoAssign.antt =====
-- tickets/auto-assign/auto-assign.service.ts.
pub mod Fairness
use issueflow.Prelude.{
  ℕ, Text, ltb, ◌==◌, ◌&&◌, ◌||◌, not, Bool, Option, none, some, List, [], ◌∷◌, map, filter, length,
  is_id,
}
use issueflow.Prelude.Order.{order_by}
use issueflow.Enums.{developer, role_eq, done, status_eq}
use issueflow.Entities.{User, Ticket, is_null}
use issueflow.Store.{Db, Exec, gets, ◌>>◌}
use issueflow.Projects

pub record WorkloadEntry : Type 0 where
  pub user_id : ℕ
  pub username : Text
  pub open_ticket_count : ℕ

-- The join condition of `workloadQuery`.
unfoldable pub counts_for : ℕ → User → Ticket → Bool
counts_for project_id u t =
    is_id t.assignee_id u.id
    && (t.project_id == project_id)
    && not (status_eq t.status done)
    && is_null t.deleted_at

-- `COUNT(t.id)` of the user's group.
unfoldable pub load : ℕ → Db → User → ℕ
unfolding counts_for
load project_id s u = length (filter (counts_for project_id u) s.tickets)

unfoldable pub is_candidate : User → Bool
is_candidate u = role_eq u.role developer && is_null u.deleted_at

-- `ORDER BY load ASC, u."createdAt" ASC`.
unfoldable pub comes_before : ℕ → Db → User → User → Bool
comes_before project_id s a b =
    ltb (load project_id s a) (load project_id s b)
    || (load project_id s a == load project_id s b) && ltb a.created_at b.created_at

unfoldable pub workload : ℕ → Db → List User
workload project_id s = order_by (comes_before project_id s) (filter is_candidate s.users)

-- `LIMIT 1`.
abbrev pub first_id : List User → Option ℕ
first_id [] = none
first_id (u ∷ us) = some u.id

unfoldable pub pick_assignee : ℕ → Exec (Option ℕ)
pick_assignee project_id = gets λ s. first_id (workload project_id s)

unfoldable pub get_project_workload : ℕ → Exec (List WorkloadEntry)
get_project_workload project_id = do
  Projects.assert_active project_id
  gets λ s.
      map
        (λ u. record {
          user_id = u.id;
          username = u.username;
          open_ticket_count = load project_id s u;
        })
        (workload project_id s)
