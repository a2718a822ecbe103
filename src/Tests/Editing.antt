-- ===== src/Tests/Editing.antt =====
-- Comments, dependencies, new tickets and logins on the database of the samples.
use issueflow.Prelude.{
  ℕ, ◌≡◌, refl, true, false, Option, none, some, [], ◌∷◌, ◌++◌, Text, contains, find_one, filter,
  any, update_where, text_eq, ◌==◌,
}
use issueflow.Prelude.Order
use issueflow.Enums
use issueflow.Enums.{developer, todo, low, bug}
use issueflow.Entities.{Comment, User, Ticket}
use issueflow.Store.{Db, ok, err, conflict, not_found, forbidden, ◌>>=◌}
use issueflow.Audit
use issueflow.Users
use issueflow.Users.{CreateUserDto, UserResponse, Actor}
use issueflow.Projects
use issueflow.Projects.{is_live_project}
use issueflow.Mentions
use issueflow.AutoAssign
use issueflow.App.{app}
use issueflow.App.Frames.{app-IsReading}
use issueflow.Tickets
use issueflow.Tickets.Create.{CreateTicketDto, new_ticket, choose_assignee, insert_ticket, create}
use issueflow.Tickets.Create.Laws.{AsAsked, Unedited, Assigned, create-error, create-new_ticket}
use issueflow.Dependencies
use issueflow.Dependencies.{add, new_dependency}
use issueflow.Dependencies.Adding.{Joined, add-Joined, add-error}
use issueflow.Comments.Base as Comments
use issueflow.Comments.Base.{CommentResponse}
use issueflow.Comments.Edit
use issueflow.Comments.Edit.{update, saved_comment, sync_mentions}
use issueflow.Comments.Edit.Laws.{Permitted, update-Permitted, comments_update-error}
use issueflow.Comments.Edit.Mentioned.{UniqueMentions, mentioned_in, sync_mentions_lem}
use issueflow.Auth.{LoginDto, TokenIssuer, issue, login}
use issueflow.Auth.Login.{login-issue}
use issueflow.Tests.Samples.{env_at, ann, bob, db}

run : Unit {0}
unfolding update Edit.update_in_transaction Edit.find_live Edit.assert_editable Edit.may_edit
    Edit.saved_comment Edit.sync_mentions Edit.to_delete Edit.to_add Edit.distinct_from
    Comments.insert_mentions Comments.add_mentions Comments.to_response Mentions.resolve
    Mentions.extract_usernames Mentions.match_all Mentions.match_at Mentions.name_at
    Mentions.take_name Mentions.collect Mentions.add_once Users.find_by_usernames_case_insensitive
    Users.in_texts Audit.record_entry Audit.insert_row Audit.audit_row Audit.actor_of add
    Dependencies.add_in_transaction Dependencies.insert_dependency Tickets.Base.find_live create
    choose_assignee insert_ticket Projects.assert_active Projects.exists_and_active
    Users.assert_active Users.exists_and_active app AutoAssign.pick_assignee AutoAssign.workload
    AutoAssign.is_candidate AutoAssign.comes_before AutoAssign.load Order.order_by Order.insert_by
    login Users.find_by_username_with_password ◌>>=◌ find_one filter any update_where contains
    text_eq
run = tt

-- Ann's comment on ticket 1 mentions her; bob is mentioned in another.
abbrev note : Comment
note = record {
  id = 1;
  ticket_id = 1;
  author_id = 1;
  content = [];
  version = 1;
  deleted_by_cascade = false;
  created_at = 9;
  deleted_at = none;
}

abbrev commented : Db
commented = record db {
  comments = note ∷ [];
  mentions =
      record { id = 1; comment_id = 1; user_id = 1 }
      ∷ record { id = 2; comment_id = 2; user_id = 2 }
      ∷ [];
}

abbrev ann_herself : Option Actor
ann_herself = some (record { id = 1; role = developer })

abbrev bob_himself : Option Actor
bob_himself = some (record { id = 2; role = developer })

-- "@b"
abbrev text : Text
text = 64 ∷ 98 ∷ []

abbrev answer : CommentResponse
answer = Comments.to_response (saved_comment (env_at 100) text note) (bob ∷ [])

abbrev edited : Db
edited = (update (env_at 100) 1 1 text ann_herself 1 commented).1

edits : update (env_at 100) 1 1 text ann_herself 1 commented ≡ (ok answer, edited)
unfolding run
edits = refl

update-Permitted_example :
    (c : Comment) × Permitted 1 1 ann_herself 1 commented c
    × (edited.comments
        ≡ update_where
            (λ r. r.id == c.id)
            (λ r. saved_comment (env_at 100) text c)
            commented.comments)
update-Permitted_example =
    update-Permitted (env_at 100) 1 1 ann_herself 1 commented edited text answer edits

not_his :
    update (env_at 100) 1 1 text bob_himself 1 commented
    ≡ (err (forbidden "Not the author of this comment"), commented)
unfolding run
not_his = refl

comments_update-error_example : commented ≡ commented
comments_update-error_example =
    comments_update-error (env_at 100) 1 1 bob_himself 1 commented commented text
      (forbidden "Not the author of this comment") not_his

unique_mentions : UniqueMentions commented.mentions
unfolding contains
unique_mentions = (refl, (refl, tt))

sync_mentions_example :
    let r = sync_mentions (env_at 100) 1 (2 ∷ []) commented in
    (r.0 ≡ ok tt)
    × (r.1 ≡ record commented { mentions = r.1.mentions })
    × (contains (mentioned_in 1 r.1.mentions) 2 ≡ contains (2 ∷ []) 2)
sync_mentions_example = sync_mentions_lem 1 (2 ∷ []) (env_at 100) commented unique_mentions 2

abbrev joined : Db
joined = (add (env_at 100) 2 1 (some 1) db).1

joins : add (env_at 100) 2 1 (some 1) db ≡ (ok tt, joined)
unfolding run
joins = refl

add-Joined_example :
    (t : Ticket) × (b : Ticket) × Joined 2 1 db t b
    × (joined ≡ record db {
      deps = db.deps ++ new_dependency (env_at 100) 2 1 db.deps ∷ [];
      audit_logs = joined.audit_logs;
    })
add-Joined_example = add-Joined (env_at 100) 2 1 (some 1) db joined joins

joined_before : add (env_at 100) 1 3 (some 1) db ≡ (err (conflict "Dependency already exists"), db)
unfolding run
joined_before = refl

add-error_example : db ≡ db
add-error_example =
    add-error (env_at 100) 1 3 (some 1) db db (conflict "Dependency already exists") joined_before

abbrev wanted : ℕ → CreateTicketDto
wanted project_id = record {
  title = 116 ∷ [];
  description = 100 ∷ [];
  status = todo;
  priority = low;
  type = bug;
  project_id = project_id;
  assignee_id = none;
  due_date = none;
}

abbrev made : Db
made = (create (env_at 100) (app (env_at 100)) (wanted 1) (some 1) db).1

-- Bob, who has the least to do, gets the ticket.
makes :
    create (env_at 100) (app (env_at 100)) (wanted 1) (some 1) db
    ≡ (ok (new_ticket (env_at 100) (wanted 1) (some 2) db.tickets), made)
unfolding run
makes = refl

abbrev ticket_made : Ticket
ticket_made = new_ticket (env_at 100) (wanted 1) (some 2) db.tickets

create-new_ticket_example :
    AsAsked (wanted 1) ticket_made
    × Unedited (env_at 100) db ticket_made
    × Assigned (app (env_at 100)).auto_assign none db ticket_made
    × (any (is_live_project 1) db.projects ≡ true)
    × (made ≡ record db { tickets = db.tickets ++ ticket_made ∷ []; audit_logs = made.audit_logs })
unfolding new_ticket
create-new_ticket_example =
    create-new_ticket (env_at 100) (app (env_at 100)) (app-IsReading (env_at 100)) (wanted 1)
      (some 1) db made ticket_made makes

no_project :
    create (env_at 100) (app (env_at 100)) (wanted 7) (some 1) db
    ≡ (err (not_found Enums.project_entity 7), db)
unfolding run
no_project = refl

create-error_example : db ≡ db
create-error_example =
    create-error (env_at 100) (app (env_at 100)) (app-IsReading (env_at 100)) (wanted 7) (some 1) db
      db (not_found Enums.project_entity 7) no_project

abbrev issuer : TokenIssuer
issuer = record {
  uuid = 7 ∷ [];
  expires_in = 3600;
  sign_async = λ payload seconds. payload.username;
}

abbrev credentials : LoginDto
credentials = record { username = 97 ∷ []; password = [] }

logs_in :
    login (env_at 100) issuer credentials db
    ≡ (ok (issue (env_at 100) issuer ann), (login (env_at 100) issuer credentials db).1)
unfolding run
logs_in = refl

login-issue_example :
    (u : User) × (Users.find_by_username_with_password (97 ∷ []) db ≡ (ok (some u), db))
    × (u.username ≡ 97 ∷ [])
    × (u.deleted_at ≡ none)
    × (true ≡ true)
    × (issue (env_at 100) issuer ann ≡ issue (env_at 100) issuer u)
login-issue_example =
    login-issue (env_at 100) issuer credentials db (login (env_at 100) issuer credentials db).1
      (issue (env_at 100) issuer ann) logs_in
