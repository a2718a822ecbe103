-- ===== src/History/Writes.antt =====
-- A later database where one table is written or a failed transaction gives tables back.
use issueflow.Prelude.{◌≡◌, map, List}
use issueflow.Entities.{
  User, Project, Ticket, Comment, Mention, TicketDependency, Attachment, InvalidatedToken,
}
use issueflow.Store.{Db}
use issueflow.Users.Unique.{NoClash}
use issueflow.History.Tables.{UniqueKeys, Moves}
use issueflow.History.Ends.{AllJoin, ends, ends_of}
use issueflow.History.Later.{
  AllJoin-Moves, Later, Onward, Later_refl, UserBecomes, ProjectBecomes, TicketBecomes,
  CommentBecomes, AttachmentBecomes,
}

module _ (s : Db) where
  pub on_users :
      (xs : List User)
      → Moves (λ u. u.id) UserBecomes s.users xs
      → (UniqueKeys (λ (u : User). u.id) s.users → NoClash s.users → NoClash xs)
      → Later s (record s { users = xs })
  on_users xs m d =
      let l = Later_refl s in
      record {
        users = m;
        distinct_users = d;
        tokens = l.tokens;
        joined = l.joined;
        projects = l.projects;
        tickets = l.tickets;
        comments = l.comments;
        attachments = l.attachments;
        audit_logs = l.audit_logs;
      }

  pub on_projects :
      (xs : List Project)
      → Moves (λ p. p.id) ProjectBecomes s.projects xs
      → Later s (record s { projects = xs })
  on_projects xs m =
      let l = Later_refl s in
      record {
        users = l.users;
        distinct_users = l.distinct_users;
        tokens = l.tokens;
        joined = l.joined;
        projects = m;
        tickets = l.tickets;
        comments = l.comments;
        attachments = l.attachments;
        audit_logs = l.audit_logs;
      }

  pub on_tickets :
      (xs : List Ticket)
      → Moves (λ t. t.id) TicketBecomes s.tickets xs
      → Later s (record s { tickets = xs })
  on_tickets xs m =
      let l = Later_refl s in
      record {
        users = l.users;
        distinct_users = l.distinct_users;
        tokens = l.tokens;
        joined = λ u a. AllJoin-Moves s.tickets xs (ends_of s) (m u).1 a;
        projects = l.projects;
        tickets = m;
        comments = l.comments;
        attachments = l.attachments;
        audit_logs = l.audit_logs;
      }

  pub on_comments :
      (xs : List Comment) (ms : List Mention)
      → Moves (λ c. c.id) CommentBecomes s.comments xs
      → Later s (record s { comments = xs; mentions = ms })
  on_comments xs ms m =
      let l = Later_refl s in
      record {
        users = l.users;
        distinct_users = l.distinct_users;
        tokens = l.tokens;
        joined = l.joined;
        projects = l.projects;
        tickets = l.tickets;
        comments = m;
        attachments = l.attachments;
        audit_logs = l.audit_logs;
      }

  pub on_attachments :
      (xs : List Attachment)
      → Moves (λ a. a.id) AttachmentBecomes s.attachments xs
      → Later s (record s { attachments = xs })
  on_attachments xs m =
      let l = Later_refl s in
      record {
        users = l.users;
        distinct_users = l.distinct_users;
        tokens = l.tokens;
        joined = l.joined;
        projects = l.projects;
        tickets = l.tickets;
        comments = l.comments;
        attachments = m;
        audit_logs = l.audit_logs;
      }

  -- The tables that rows may leave.
  pub on_rest :
      (ms : List Mention) (ds : List TicketDependency)
      → (UniqueKeys (λ (t : Ticket). t.id) s.tickets
          → AllJoin s.tickets (ends_of s)
          → AllJoin s.tickets (map ends ds))
      → Later s (record s { mentions = ms; deps = ds })
  on_rest ms ds e =
      let l = Later_refl s in
      record {
        users = l.users;
        distinct_users = l.distinct_users;
        tokens = l.tokens;
        joined = e;
        projects = l.projects;
        tickets = l.tickets;
        comments = l.comments;
        attachments = l.attachments;
        audit_logs = l.audit_logs;
      }

  -- The deny list.
  pub on_tokens : (ts : List InvalidatedToken) → Onward s (record s { tokens = ts })
  on_tokens ts = Later_refl s

-- The tables that a failed transaction gives back are as they were.
module _ (s s' : Db) (l : Later s s') where
  pub undo_deps : Later s (record s' { deps = s.deps; audit_logs = s.audit_logs })
  undo_deps =
      let r = Later_refl s in
      record {
        users = l.users;
        distinct_users = l.distinct_users;
        tokens = l.tokens;
        joined = λ u a. AllJoin-Moves s.tickets s'.tickets (ends_of s) (l.tickets u).1 a;
        projects = l.projects;
        tickets = l.tickets;
        comments = l.comments;
        attachments = l.attachments;
        audit_logs = r.audit_logs;
      }

  pub undo_tickets : ends_of s' ≡ ends_of s → Later s (record s' { tickets = s.tickets })
  undo_tickets e =
      let r = Later_refl s in
      record {
        users = l.users;
        distinct_users = l.distinct_users;
        tokens = l.tokens;
        joined = λ u a. rw e a;
        projects = l.projects;
        tickets = r.tickets;
        comments = l.comments;
        attachments = l.attachments;
        audit_logs = l.audit_logs;
      }

  pub undo_tickets_log :
      ends_of s' ≡ ends_of s
      → Later s (record s' { tickets = s.tickets; audit_logs = s.audit_logs })
  undo_tickets_log e =
      let r = Later_refl s in
      record {
        users = l.users;
        distinct_users = l.distinct_users;
        tokens = l.tokens;
        joined = λ u a. rw e a;
        projects = l.projects;
        tickets = r.tickets;
        comments = l.comments;
        attachments = l.attachments;
        audit_logs = r.audit_logs;
      }

  pub undo_comments : Later s (record s' { comments = s.comments; mentions = s.mentions })
  undo_comments =
      let r = Later_refl s in
      record {
        users = l.users;
        distinct_users = l.distinct_users;
        tokens = l.tokens;
        joined = l.joined;
        projects = l.projects;
        tickets = l.tickets;
        comments = r.comments;
        attachments = l.attachments;
        audit_logs = l.audit_logs;
      }

  pub undo_projects : Later s (record s' { projects = s.projects })
  undo_projects =
      let r = Later_refl s in
      record {
        users = l.users;
        distinct_users = l.distinct_users;
        tokens = l.tokens;
        joined = l.joined;
        projects = r.projects;
        tickets = l.tickets;
        comments = l.comments;
        attachments = l.attachments;
        audit_logs = l.audit_logs;
      }
