-- ===== src/Api/Controllers/Tickets.antt =====
-- tickets/tickets.controller.ts.
use issueflow.Prelude.{ℕ, Option, none, some, List, map}
use issueflow.Entities.{Ticket}
use issueflow.Store.{Env, Exec, unexpected, pure, raise, ◌>>=◌, ◌>>◌}
use issueflow.Auth.{CurrentUser}
use issueflow.Csv.{RawRow, export_tickets, import_tickets}
use issueflow.Tickets.Base
use issueflow.Tickets.Base.{Registered}
use issueflow.Tickets.Create
use issueflow.Tickets.Create.{CreateTicketDto}
use issueflow.Tickets.Update
use issueflow.Tickets.Update.{UpdateTicketDto}
use issueflow.Tickets.Remove
use issueflow.Api.Responses.{
  Reply, reply, reply_with_version, no_body, ticket_body, tickets_body, deleted_tickets_body,
  csv_body, import_body, ticket_from_entity, deleted_from_entity,
}

unfoldable pub list_deleted : ℕ → Exec Reply
list_deleted project_id = do
  rows ← Base.find_all_deleted_for_project project_id
  pure (reply (deleted_tickets_body (map deleted_from_entity rows)))

unfoldable pub list : ℕ → Exec Reply
list project_id = do
  rows ← Base.find_all_for_project project_id
  pure (reply (tickets_body (map ticket_from_entity rows)))

unfoldable pub get : ℕ → Exec Reply
get ticket_id = do
  t ← Base.find_live ticket_id
  pure (reply_with_version t.version (ticket_body (ticket_from_entity t)))

-- `restored.version`, which throws where there is no ticket.
abbrev pub restored_reply : Option Ticket → Exec Reply
restored_reply none = raise unexpected
restored_reply (some t) = pure (reply_with_version t.version no_body)

module _ (env : Env) (reg : Registered) where
  unfoldable pub export : ℕ → CurrentUser → Exec Reply
  export project_id actor = do
    rows ← export_tickets env project_id (some actor.id)
    pure (reply (csv_body project_id rows))

  unfoldable pub import : ℕ → List RawRow → CurrentUser → Exec Reply
  import project_id records actor = do
    result ← import_tickets env reg project_id records (some actor.id)
    pure (reply (import_body result))

  unfoldable pub create : CreateTicketDto → CurrentUser → Exec Reply
  create dto actor = do
    t ← Create.create env reg dto (some actor.id)
    pure (reply_with_version t.version (ticket_body (ticket_from_entity t)))

  unfoldable pub update : ℕ → UpdateTicketDto → CurrentUser → ℕ → Exec Reply
  update ticket_id dto actor expected_version = do
    saved ← Update.update env reg ticket_id dto (some actor.id) expected_version
    pure (reply_with_version saved.version no_body)

  unfoldable pub delete : ℕ → CurrentUser → ℕ → Exec Reply
  delete ticket_id actor expected_version = do
    Remove.soft_delete env reg ticket_id (some actor.id) expected_version
    pure (reply no_body)

  unfoldable pub restore : ℕ → CurrentUser → Exec Reply
  restore ticket_id actor = do
    restored ← Remove.restore env reg ticket_id (some actor.id)
    restored_reply restored
