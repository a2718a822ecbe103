-- ===== src/Api/Responses.antt =====
-- The response DTOs (*/dto/*-response.dto.ts) and what a handler hands back: a body and, where it
-- sets the header, an ETag.
use issueflow.Prelude.{ℕ, Bool, Text, Option, none, some, List}
use issueflow.Enums.{TicketStatus, TicketPriority, TicketType}
use issueflow.Entities.{Date, Ticket, Project, AuditLog}
use issueflow.Users.{UserResponse}
use issueflow.Attachments.{AttachmentMetadata}
use issueflow.AutoAssign.{WorkloadEntry}
use issueflow.Dependencies.{Blocker}
use issueflow.Comments.Base.{MentionedUser, CommentResponse}
use issueflow.Csv.{CsvRow, ImportResult}
use issueflow.Auth.{LoginResult}
use issueflow.Http.{print_etag}

pub record TicketResponse : Type 0 where
  pub id : ℕ
  pub project_id : ℕ
  pub title : Text
  pub description : Text
  pub status : TicketStatus
  pub priority : TicketPriority
  pub type : TicketType
  pub assignee_id : Option ℕ
  pub due_date : Option Date
  pub is_overdue : Bool

unfoldable pub ticket_from_entity : Ticket → TicketResponse
ticket_from_entity t = record {
  id = t.id;
  project_id = t.project_id;
  title = t.title;
  description = t.description;
  status = t.status;
  priority = t.priority;
  type = t.type;
  assignee_id = t.assignee_id;
  due_date = t.due_date;
  is_overdue = t.is_overdue;
}

pub record TicketDeletedResponse : Type 0 where
  pub id : ℕ
  pub title : Text
  pub status : TicketStatus
  pub priority : TicketPriority
  pub type : TicketType
  pub project_id : ℕ

unfoldable pub deleted_from_entity : Ticket → TicketDeletedResponse
deleted_from_entity t = record {
  id = t.id;
  title = t.title;
  status = t.status;
  priority = t.priority;
  type = t.type;
  project_id = t.project_id;
}

pub record ProjectResponse : Type 0 where
  pub id : ℕ
  pub name : Text
  pub description : Text
  pub owner_id : ℕ

unfoldable pub project_from_entity : Project → ProjectResponse
project_from_entity p = record {
  id = p.id;
  name = p.name;
  description = p.description;
  owner_id = p.owner_id;
}

-- CommentResponseDto: a CommentResponse without its version.
pub record CommentBody : Type 0 where
  pub id : ℕ
  pub ticket_id : ℕ
  pub author_id : ℕ
  pub content : Text
  pub mentioned_users : List MentionedUser

unfoldable pub comment_from_entity : CommentResponse → CommentBody
comment_from_entity c = record {
  id = c.id;
  ticket_id = c.ticket_id;
  author_id = c.author_id;
  content = c.content;
  mentioned_users = c.mentioned_users;
}

pub record PaginatedMentionsResponse : Type 0 where
  pub items : List CommentBody
  pub total : ℕ
  pub page : ℕ

-- The bodies that the handlers send.
pub data Body : Type 0 where
  no_body : Body
  health_body : Body
  login_body : LoginResult → Body
  user_body : UserResponse → Body
  users_body : List UserResponse → Body
  project_body : ProjectResponse → Body
  projects_body : List ProjectResponse → Body
  ticket_body : TicketResponse → Body
  tickets_body : List TicketResponse → Body
  deleted_tickets_body : List TicketDeletedResponse → Body
  csv_body : ℕ → List CsvRow → Body
  import_body : ImportResult → Body
  comment_body : CommentBody → Body
  comments_body : List CommentBody → Body
  mentions_body : PaginatedMentionsResponse → Body
  blockers_body : List Blocker → Body
  attachment_body : AttachmentMetadata → Body
  workload_body : List WorkloadEntry → Body
  audit_logs_body : List AuditLog → Body

pub record Reply : Type 0 where
  pub etag : Option Text
  pub body : Body

abbrev pub reply : Body → Reply
reply body = record { etag = none; body = body }

-- `res.setHeader('ETag', …)` with the version of what is sent.
abbrev pub reply_with_version : ℕ → Body → Reply
reply_with_version version body = record { etag = some (print_etag version); body = body }
