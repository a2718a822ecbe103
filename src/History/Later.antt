-- ===== src/History/Later.antt =====
-- What a later state of the database has kept of an earlier one, whatever was called in between.
use issueflow.Prelude.{
  sym, ◌∙◌, ℕ, ◌≤◌, ◌≡◌, ◌≢◌, refl, ◌∙◌, arith, false, none, List, [], ◌∷◌, ◌++◌, contains,
}
use issueflow.Enums.{done, status_index}
use issueflow.Entities.{User, Project, Ticket, Comment, Attachment, AuditLog}
use issueflow.Store.{Db, Env}
use issueflow.History.Ends.{AllJoin, Joins, ends_of}
use issueflow.Users.Unique.{NoClash}
use issueflow.History.Tables.{
  Descends, Descends-find_one, UniqueKeys, Becoming, Moves, Moves-refl, Moves-trans,
}

-- A ticket: its identity, and that its status never moves back. Once DONE, its contents are final.
pub record TicketBecomes (t t' : Ticket) : Type 0 where
  pub id : t'.id ≡ t.id
  pub project_id : t'.project_id ≡ t.project_id
  pub created_at : t'.created_at ≡ t.created_at
  pub forward : status_index t.status ≤ status_index t'.status
  pub final_title : t.status ≡ done → t'.title ≡ t.title
  pub final_description : t.status ≡ done → t'.description ≡ t.description
  pub final_priority : t.status ≡ done → t'.priority ≡ t.priority
  pub final_type : t.status ≡ done → t'.type ≡ t.type
  pub final_assignee_id : t.status ≡ done → t'.assignee_id ≡ t.assignee_id
  pub final_due_date : t.status ≡ done → t'.due_date ≡ t.due_date
  pub final_is_overdue : t.status ≡ done → t'.is_overdue ≡ t.is_overdue

-- A user: the name, the address and the password stay, and a deleted user stays deleted.
pub record UserBecomes (u u' : User) : Type 0 where
  pub id : u'.id ≡ u.id
  pub username : u'.username ≡ u.username
  pub email : u'.email ≡ u.email
  pub password_hash : u'.password_hash ≡ u.password_hash
  pub created_at : u'.created_at ≡ u.created_at
  pub deleted : u.deleted_at ≢ none → u'.deleted_at ≢ none

pub record ProjectBecomes (p p' : Project) : Type 0 where
  pub id : p'.id ≡ p.id
  pub owner_id : p'.owner_id ≡ p.owner_id
  pub created_at : p'.created_at ≡ p.created_at

pub record CommentBecomes (c c' : Comment) : Type 0 where
  pub id : c'.id ≡ c.id
  pub ticket_id : c'.ticket_id ≡ c.ticket_id
  pub author_id : c'.author_id ≡ c.author_id
  pub created_at : c'.created_at ≡ c.created_at

-- An attachment: all but its deletion.
pub record AttachmentBecomes (a a' : Attachment) : Type 0 where
  pub id : a'.id ≡ a.id
  pub ticket_id : a'.ticket_id ≡ a.ticket_id
  pub filename : a'.filename ≡ a.filename
  pub content_type : a'.content_type ≡ a.content_type
  pub size_bytes : a'.size_bytes ≡ a.size_bytes
  pub contents : a'.contents ≡ a.contents
  pub uploaded_by : a'.uploaded_by ≡ a.uploaded_by
  pub uploaded_at : a'.uploaded_at ≡ a.uploaded_at

pub done_last :
    (t t' : Ticket)
    → t.status ≡ done
    → status_index t.status ≤ status_index t'.status
    → t'.status ≡ done
done_last t t' e h = ground arith

Ticket-further : (x y z : Ticket) → TicketBecomes x y → TicketBecomes y z → TicketBecomes x z
Ticket-further x y z p q = ground (arith, done_last x y)

pub Ticket-Becoming : Becoming (λ (t : Ticket). t.id) TicketBecomes
Ticket-Becoming = record {
  still = λ x. ground arith;
  further = Ticket-further;
  same_key = λ x y h. h.id;
}

pub User-Becoming : Becoming (λ (u : User). u.id) UserBecomes
User-Becoming = record {
  still = λ x. ground arith;
  further = λ x y z p q. ground arith;
  same_key = λ x y h. h.id;
}

pub Project-Becoming : Becoming (λ (p : Project). p.id) ProjectBecomes
Project-Becoming = record {
  still = λ x. ground arith;
  further = λ x y z p q. ground arith;
  same_key = λ x y h. h.id;
}

pub Comment-Becoming : Becoming (λ (c : Comment). c.id) CommentBecomes
Comment-Becoming = record {
  still = λ x. ground arith;
  further = λ x y z p q. ground arith;
  same_key = λ x y h. h.id;
}

pub Attachment-Becoming : Becoming (λ (a : Attachment). a.id) AttachmentBecomes
Attachment-Becoming = record {
  still = λ x. ground arith;
  further = λ x y z p q. ground arith;
  same_key = λ x y h. h.id;
}

-- Nothing that was in the log is lost or changed.
abbrev pub IsPrefix : List AuditLog → List AuditLog → Type 0
IsPrefix [] ys = Unit
IsPrefix (x ∷ xs) [] = ⊥
IsPrefix (x ∷ xs) (y ∷ ys) = (x ≡ y) × IsPrefix xs ys

IsPrefix_refl : (xs : List AuditLog) → IsPrefix xs xs
IsPrefix_refl [] = tt
IsPrefix_refl (x ∷ xs) = (refl, IsPrefix_refl xs)

IsPrefix_trans : (xs ys zs : List AuditLog) → IsPrefix xs ys → IsPrefix ys zs → IsPrefix xs zs
IsPrefix_trans [] ys zs p q = tt
IsPrefix_trans (x ∷ xs) [] zs p q = elim p [ ]
IsPrefix_trans (x ∷ xs) (y ∷ ys) [] p q = elim q [ ]
IsPrefix_trans (x ∷ xs) (y ∷ ys) (z ∷ zs) p q = (p.0 ∙ q.0, IsPrefix_trans xs ys zs p.1 q.1)

pub IsPrefix-append_one : (xs : List AuditLog) (x : AuditLog) → IsPrefix xs (xs ++ x ∷ [])
IsPrefix-append_one [] x = tt
IsPrefix-append_one (y ∷ ys) x = (refl, IsPrefix-append_one ys x)

pub record Later (s s' : Db) : Type 0 where
  pub users : Moves (λ u. u.id) UserBecomes s.users s'.users
  pub projects : Moves (λ p. p.id) ProjectBecomes s.projects s'.projects
  pub tickets : Moves (λ t. t.id) TicketBecomes s.tickets s'.tickets
  pub comments : Moves (λ c. c.id) CommentBecomes s.comments s'.comments
  pub attachments : Moves (λ a. a.id) AttachmentBecomes s.attachments s'.attachments
  pub distinct_users : UniqueKeys (λ (u : User). u.id) s.users → NoClash s.users → NoClash s'.users
  pub joined :
      UniqueKeys (λ (t : Ticket). t.id) s.tickets
      → AllJoin s.tickets (ends_of s)
      → AllJoin s'.tickets (ends_of s')
  pub audit_logs : IsPrefix s.audit_logs s'.audit_logs
  pub tokens : s'.tokens ≡ s.tokens

pub Later_refl : (s : Db) → Later s s
Later_refl s = record {
  users = Moves-refl User-Becoming s.users;
  projects = Moves-refl Project-Becoming s.projects;
  tickets = Moves-refl Ticket-Becoming s.tickets;
  comments = Moves-refl Comment-Becoming s.comments;
  attachments = Moves-refl Attachment-Becoming s.attachments;
  distinct_users = λ u n. n;
  joined = λ u a. a;
  audit_logs = IsPrefix_refl s.audit_logs;
  tokens = refl;
}

pub Later_trans : (s t u : Db) → Later s t → Later t u → Later s u
Later_trans s t u p q = record {
  users = Moves-trans User-Becoming s.users t.users u.users p.users q.users;
  projects = Moves-trans Project-Becoming s.projects t.projects u.projects p.projects q.projects;
  tickets = Moves-trans Ticket-Becoming s.tickets t.tickets u.tickets p.tickets q.tickets;
  comments = Moves-trans Comment-Becoming s.comments t.comments u.comments p.comments q.comments;
  attachments =
      Moves-trans Attachment-Becoming s.attachments t.attachments u.attachments p.attachments
        q.attachments;
  distinct_users = λ k n. q.distinct_users (p.users k).0 (p.distinct_users k n);
  joined = λ k a. q.joined (p.tickets k).0 (p.joined k a);
  audit_logs = IsPrefix_trans s.audit_logs t.audit_logs u.audit_logs p.audit_logs q.audit_logs;
  tokens = q.tokens ∙ p.tokens;
}

-- A later database but for the deny list.
abbrev pub Onward : Db → Db → Type 0
Onward s s' = Later s (record s' { tokens = s.tokens })

pub Onward-Later : (s s' : Db) → Later s s' → Onward s s'
Onward-Later s s' l = record {
  users = l.users;
  projects = l.projects;
  tickets = l.tickets;
  comments = l.comments;
  attachments = l.attachments;
  distinct_users = l.distinct_users;
  joined = l.joined;
  audit_logs = l.audit_logs;
  tokens = refl;
}

pub Onward-trans : (s t u : Db) → Onward s t → Onward t u → Onward s u
Onward-trans s t u p q =
    Later_trans s (record t { tokens = s.tokens }) (record u { tokens = s.tokens }) p
      (record {
        users = q.users;
        projects = q.projects;
        tickets = q.tickets;
        comments = q.comments;
        attachments = q.attachments;
        distinct_users = q.distinct_users;
        joined = q.joined;
        audit_logs = q.audit_logs;
        tokens = refl;
      })

-- Dependencies join what they joined, where the tickets have moved on.
Joins-Moves :
    (ts ts' : List Ticket) (e : ℕ × ℕ) → Descends TicketBecomes ts ts' → Joins ts e → Joins ts' e
Joins-Moves ts ts' (a, b) d (apart, t, u, found, other, same) =
    let (t', found', h) = Descends-find_one Ticket-Becoming a ts ts' d found in
    let (u', other', k) = Descends-find_one Ticket-Becoming b ts ts' d other in
    (apart, t', u', found', other', h.project_id ∙ same ∙ sym k.project_id)

pub AllJoin-Moves :
    (ts ts' : List Ticket) (es : List (ℕ × ℕ))
    → Descends TicketBecomes ts ts'
    → AllJoin ts es
    → AllJoin ts' es
AllJoin-Moves ts ts' [] d a = tt
AllJoin-Moves ts ts' (e ∷ es) d a = (Joins-Moves ts ts' e d a.0, AllJoin-Moves ts ts' es d a.1)

-- The key that the database generates is new.
abbrev pub FreshIds : Env → Type 0
FreshIds env = (ids : List ℕ) → contains ids (env.next_id ids) ≡ false
