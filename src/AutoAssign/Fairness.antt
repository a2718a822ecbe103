-- ===== src/AutoAssign/Fairness.antt =====
-- The picked assignee is a developer with the least load.
use mathlib.Core.List.{Memᴰ}
use issueflow.Prelude.{ℕ, ◌≤◌, ◌≡◌, refl, true, false, none, some, List, [], ◌∷◌, arith, filter}
use issueflow.Prelude.Rows.{filter-mem}
use issueflow.Prelude.Order.{order_by}
use issueflow.Prelude.Order.Ranking.{IsRanking, order_by-first, order_by-mem}
use issueflow.Enums.{developer, role_eq_sound}
use issueflow.Entities.{User}
use issueflow.Store.{Db, ok}
use issueflow.AutoAssign.{load, is_candidate, comes_before, workload, pick_assignee}

comes_before-IsRanking : (project_id : ℕ) (s : Db) → IsRanking (comes_before project_id s)
unfolding comes_before
comes_before-IsRanking project_id s = record {
  asym = λ a b h. ground arith;
  weak = λ a b c h k. ground arith;
}

-- A developer that is not deleted, with no more open tickets in the project than any other, and the
-- oldest account of those with as few.
pub record IsFair (project_id : ℕ) (s : Db) (u : User) : Type 0 where
  pub listed : Memᴰ u s.users
  pub role : u.role ≡ developer
  pub live : u.deleted_at ≡ none
  pub least :
      (v : User) → Memᴰ v (filter is_candidate s.users) → load project_id s u ≤ load project_id s v
  pub oldest :
      (v : User)
      → Memᴰ v (filter is_candidate s.users)
      → load project_id s v ≡ load project_id s u
      → u.created_at ≤ v.created_at

first_of_workload :
    (project_id : ℕ) (s : Db) (u : User) (rest : List User)
    → workload project_id s ≡ u ∷ rest
    → IsFair project_id s u
unfolding workload
first_of_workload project_id s u rest e =
    let cands = filter is_candidate s.users in
    let before = comes_before project_id s in
    let in_order : Memᴰ u (order_by before cands) = rw e (Memᴰ.head refl) in
    let (listed, fits) = filter-mem is_candidate s.users u (order_by-mem before cands u in_order) in
    let least = order_by-first before (comes_before-IsRanking project_id s) cands u rest e in
    record {
      listed = listed;
      role = developer_of u fits;
      live = live_of u fits;
      least = λ v m. least_load v (least v m);
      oldest = λ v m same. least_age v same (least v m);
    }
  where
    developer_of : (v : User) → is_candidate v ≡ true → v.role ≡ developer
    developer_of v h = unfold is_candidate in role_eq_sound v.role developer (ground arith)

    live_of : (v : User) → is_candidate v ≡ true → v.deleted_at ≡ none
    live_of v h = unfold is_candidate in ground arith

    least_load :
        (v : User)
        → comes_before project_id s v u ≡ false
        → load project_id s u ≤ load project_id s v
    least_load v h = unfold comes_before in ground arith

    least_age :
        (v : User)
        → load project_id s v ≡ load project_id s u
        → comes_before project_id s v u ≡ false
        → u.created_at ≤ v.created_at
    least_age v same h = unfold comes_before in ground arith

-- An id that `pickAssignee` returns is that of a user in the table who is a fair choice.
pub pick_assignee-IsFair :
    (project_id : ℕ) (s : Db) (id : ℕ)
    → pick_assignee project_id s ≡ (ok (some id), s)
    → (u : User) × (u.id ≡ id) × IsFair project_id s u
unfolding pick_assignee
pick_assignee-IsFair project_id s id h = go (workload project_id s) refl
  where
    go :
        (us : List User)
        → workload project_id s ≡ us
        → (u : User) × (u.id ≡ id) × IsFair project_id s u
    go [] e = ground arith
    go (u ∷ rest) e = (u, ground arith, first_of_workload project_id s u rest e)
