-- ===== src/Mentions.antt =====
-- comments/mentions/mention-parser.ts: the matches of /(?:^|[^\p{L}\p{N}_])@([\p{L}\p{N}_\-]+)/gu and
-- the users that they name. The character class [\p{L}\p{N}_] is `env.is_word`.
pub mod Reading
pub mod Occurring
use issueflow.Prelude.{
  ℕ, zero, suc, Text, text_eq, ◌==◌, ◌||◌, Bool, true, false, Option, none, some, List, [], ◌∷◌,
  ◌++◌, any, is_empty, length, if◌then◌else◌,
}
use issueflow.Entities.{User}
use issueflow.Store.{Env, Exec, pure}
use issueflow.Users

module _ (env : Env) where
  -- [\p{L}\p{N}_\-]
  abbrev pub is_name_char : ℕ → Bool
  is_name_char c = env.is_word c || (c == b'-')

  -- The longest run of name characters at the front.
  unfoldable pub take_name : Text → Text
  take_name [] = []
  take_name (c ∷ cs) = if is_name_char c then c ∷ take_name cs else []

  -- `@([\p{L}\p{N}_\-]+)` at the front: the capture, which is empty if there is no match.
  unfoldable pub name_at : Text → Text
  unfolding take_name
  name_at [] = []
  name_at (c ∷ cs) = if c == b'@' then take_name cs else []

  -- The expression at the front of a text; `start` says that `^` matches there. The capture and
  -- the length of the match.
  unfoldable pub match_at : Bool → Text → Option (Text × ℕ)
  unfolding name_at
  match_at start [] = none
  match_at start (c ∷ cs) =
      let direct = name_at (c ∷ cs) in
      let behind = name_at cs in
      if start
      then (if is_empty direct
          then (if env.is_word c || is_empty behind
              then none
              else some (behind, suc (suc (length behind))))
          else some (direct, suc (length direct)))
      else (if env.is_word c || is_empty behind
          then none
          else some (behind, suc (suc (length behind))))

  -- `matchAll`: `skip` characters belong to the last match.
  unfoldable pub match_all : Bool → ℕ → Text → List Text
  unfolding match_at
  match_all start skip [] = []
  match_all start (suc k) (c ∷ cs) = match_all false k cs
  match_all start zero (c ∷ cs) = elim (match_at start (c ∷ cs)) [
    | none ↦ match_all false 0 cs
    | some (name, zero) ↦ match_all false 0 cs
    | some (name, suc k) ↦ name ∷ match_all false k cs
  ]

  -- `seen.add(name)`: a Set keeps the order of first insertion.
  unfoldable pub add_once : List Text → Text → List Text
  add_once seen name = if any (λ x. text_eq x name) seen then seen else seen ++ name ∷ []

  unfoldable pub collect : List Text → List Text → List Text
  unfolding add_once
  collect seen [] = seen
  collect seen (name ∷ names) = collect (add_once seen (env.to_lower name)) names

  unfoldable pub extract_usernames : Text → List Text
  unfolding match_all collect
  extract_usernames content = collect [] (match_all true 0 content)

  unfoldable pub resolve : Text → Exec (List User)
  unfolding extract_usernames
  resolve content =
      let usernames = extract_usernames content in
      if is_empty usernames then pure [] else Users.find_by_usernames_case_insensitive env usernames
