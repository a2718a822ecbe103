-- ===== src/History/Services/Reading.antt =====
-- The checks and lookups that only read.
use issueflow.Prelude.{ℕ, refl, arith, String, Text}
use issueflow.Store.{Env, ◌>>=◌}
use issueflow.Users
use issueflow.Projects
use issueflow.Mentions
use issueflow.Tickets.Base
use issueflow.History.Respects.{Respects, Respects-reads}

pub user_active-Respects : (id : ℕ) → Respects (Users.assert_active id)
unfolding Users.assert_active
user_active-Respects id = Respects-reads _ (λ s. refl)

pub user_live-Respects : (id : ℕ) → Respects (Users.find_live id)
unfolding Users.find_live ◌>>=◌
user_live-Respects id = Respects-reads _ (λ s. ground arith)

pub project_active-Respects : (id : ℕ) → Respects (Projects.assert_active id)
unfolding Projects.assert_active
project_active-Respects id = Respects-reads _ (λ s. refl)

pub project_live-Respects : (id : ℕ) → Respects (Projects.find_live id)
unfolding Projects.find_live ◌>>=◌
project_live-Respects id = Respects-reads _ (λ s. ground arith)

pub ticket_active-Respects : (id : ℕ) → Respects (Base.assert_active id)
unfolding Base.assert_active
ticket_active-Respects id = Respects-reads _ (λ s. refl)

pub ticket_live-Respects : (id : ℕ) → Respects (Base.find_live id)
unfolding Base.find_live ◌>>=◌
ticket_live-Respects id = Respects-reads _ (λ s. ground arith)

pub version_matches-Respects :
    (version expected : ℕ) (name : String)
    → Respects (Base.assert_version_matches version expected name)
unfolding Base.assert_version_matches
version_matches-Respects version expected name = Respects-reads _ (λ s. refl)

pub resolve-Respects : (env : Env) (content : Text) → Respects (Mentions.resolve env content)
unfolding Mentions.resolve Users.find_by_usernames_case_insensitive
resolve-Respects env content = Respects-reads _ (λ s. ground arith)
