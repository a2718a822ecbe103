-- ===== src/Tests/Samples.antt =====
-- A small database and what it runs in: the data of the tests.
use issueflow.Prelude.{ℕ, ◌+◌, true, false, Option, none, some, [], ◌∷◌, length}
use issueflow.Enums.{developer, todo, in_review, done, low, high, bug, TicketStatus, TicketPriority}
use issueflow.Entities.{User, Project, Ticket, TicketDependency, Attachment, Date}
use issueflow.Store.{Db, Env}
use issueflow.Tickets.Update.{UpdateTicketDto}

abbrev pub env_at : Date → Env
env_at now = record {
  now = now;
  next_id = λ ids. length ids + 1;
  ticket_version = λ stored saved. stored.version + 1;
  comment_version = λ stored saved. stored.version + 1;
  bulk_version = λ v. v;
  save_conflict = λ t. false;
  audit_accepts = λ row. true;
  is_word = λ c. true;
  to_lower = λ t. t;
  sql_lower = λ t. t;
  hash = λ t. t;
  compare = λ t t'. true;
}

abbrev pub ann : User
ann = record {
  id = 1;
  username = 97 ∷ [];
  email = 97 ∷ [];
  full_name = 97 ∷ [];
  role = developer;
  password_hash = [];
  created_at = 10;
  deleted_at = none;
}

abbrev pub bob : User
bob = record {
  id = 2;
  username = 98 ∷ [];
  email = 98 ∷ [];
  full_name = 98 ∷ [];
  role = developer;
  password_hash = [];
  created_at = 20;
  deleted_at = none;
}

abbrev pub board : Project
board = record {
  id = 1;
  name = 112 ∷ [];
  description = [];
  owner_id = 1;
  created_at = 5;
  deleted_at = none;
}

abbrev pub ticket : ℕ → TicketStatus → TicketPriority → Option ℕ → Option Date → Ticket
ticket id status priority assignee due = record {
  id = id;
  title = 116 ∷ [];
  description = [];
  status = status;
  priority = priority;
  type = bug;
  project_id = 1;
  assignee_id = assignee;
  due_date = due;
  is_overdue = false;
  version = 1;
  deleted_by_cascade = false;
  created_at = 7;
  deleted_at = none;
}

-- Ticket 2 is due at 50; ticket 1 is blocked by ticket 3, which is DONE.
abbrev pub first : Ticket
first = ticket 1 in_review low (some 1) none

abbrev pub second : Ticket
second = ticket 2 todo high none (some 50)

abbrev pub third : Ticket
third = ticket 3 done low (some 2) none

abbrev pub edge : TicketDependency
edge = record {
  id = 1;
  ticket_id = 1;
  blocked_by = 3;
  deleted_by_cascade = false;
  created_at = 8;
  deleted_at = none;
}

abbrev pub picture : Attachment
picture = record {
  id = 1;
  ticket_id = 1;
  filename = 112 ∷ [];
  content_type = [];
  size_bytes = 2;
  contents = 1 ∷ 2 ∷ [];
  uploaded_by = some 1;
  deleted_by_cascade = false;
  uploaded_at = 9;
  deleted_at = none;
}

abbrev pub db : Db
db = record {
  users = ann ∷ bob ∷ [];
  projects = board ∷ [];
  tickets = first ∷ second ∷ third ∷ [];
  comments = [];
  mentions = [];
  deps = edge ∷ [];
  attachments = picture ∷ [];
  audit_logs = [];
  tokens = [];
}

-- A patch of the status alone.
abbrev pub move_to : TicketStatus → UpdateTicketDto
move_to status = record {
  title = none;
  description = none;
  status = some status;
  priority = none;
  type = none;
  assignee_id = none;
  due_date = none;
}
