-- ===== src/Entities.antt =====
-- The entities: */entities/*.entity.ts. Ids, dates and sizes are numbers, texts are lists of code
-- points. `updatedAt` is left out: no code reads it.
use issueflow.Prelude.{ℕ, Bool, true, false, Option, none, some, List, Text}
use issueflow.Enums.{
  TicketStatus, TicketPriority, TicketType, UserRole, ActorType, EntityType, AuditAction,
}

abbrev pub Date : Type 0
Date = ℕ

pub record User : Type 0 where
  pub id : ℕ
  pub username : Text
  pub email : Text
  pub full_name : Text
  pub role : UserRole
  pub password_hash : Text
  pub created_at : Date
  pub deleted_at : Option Date

pub record Project : Type 0 where
  pub id : ℕ
  pub name : Text
  pub description : Text
  pub owner_id : ℕ
  pub created_at : Date
  pub deleted_at : Option Date

pub record Ticket : Type 0 where
  pub id : ℕ
  pub title : Text
  pub description : Text
  pub status : TicketStatus
  pub priority : TicketPriority
  pub type : TicketType
  pub project_id : ℕ
  pub assignee_id : Option ℕ
  pub due_date : Option Date
  pub is_overdue : Bool
  pub version : ℕ
  pub deleted_by_cascade : Bool
  pub created_at : Date
  pub deleted_at : Option Date

pub record Comment : Type 0 where
  pub id : ℕ
  pub ticket_id : ℕ
  pub author_id : ℕ
  pub content : Text
  pub version : ℕ
  pub deleted_by_cascade : Bool
  pub created_at : Date
  pub deleted_at : Option Date

pub record Mention : Type 0 where
  pub id : ℕ
  pub comment_id : ℕ
  pub user_id : ℕ

pub record TicketDependency : Type 0 where
  pub id : ℕ
  pub ticket_id : ℕ
  pub blocked_by : ℕ
  pub deleted_by_cascade : Bool
  pub created_at : Date
  pub deleted_at : Option Date

pub record Attachment : Type 0 where
  pub id : ℕ
  pub ticket_id : ℕ
  pub filename : Text
  pub content_type : Text
  pub size_bytes : ℕ
  pub contents : List ℕ
  pub uploaded_by : Option ℕ
  pub deleted_by_cascade : Bool
  pub uploaded_at : Date
  pub deleted_at : Option Date

pub record InvalidatedToken : Type 0 where
  pub jti : Text
  pub expires_at : Date

-- The `metadata` objects that the services write, one constructor for each shape.
pub data Metadata : Type 0 where
  assigned_to : ℕ → Metadata
  changes :
      Option (TicketStatus × TicketStatus) → Option (TicketPriority × TicketPriority) → Metadata
  escalation : (from to : TicketPriority) → (was is : Bool) → Metadata
  cascade_project : ℕ → Metadata
  cascade_tickets : List ℕ → Metadata
  cascade_attachment : ℕ → List ℕ → Metadata
  blocked_by_meta : ℕ → Metadata
  mentioned : ℕ → List ℕ → Metadata
  uploaded : ℕ → Text → ℕ → Metadata
  of_ticket : ℕ → Metadata
  attempted_unknown : Text → Metadata
  attempted_bad_password : Text → Metadata
  logout_event : Metadata
  export_event : ℕ → Metadata
  import_event : ℕ → ℕ → Metadata

pub record AuditLog : Type 0 where
  pub id : ℕ
  pub action : AuditAction
  pub entity_type : EntityType
  pub entity_id : ℕ
  pub performed_by : Option ℕ
  pub actor : ActorType
  pub metadata : Option Metadata
  pub timestamp : Date

-- `deletedAt IS NULL`.
abbrev pub is_null : Option Date → Bool
is_null none = true
is_null (some d) = false
