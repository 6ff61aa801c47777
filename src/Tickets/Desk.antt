-- ===== src/Tickets/Desk.antt =====
-- The use cases of apps/api/src/modules/tickets/application/use-cases over the tables of tickets and
-- orders. A ticket's messages stand in the order in which they were written; the new id is an
-- argument.
use elonew.Base.{
  ℕ, String, Bool, true, false, not, [], ◌∷◌, ◌++◌, Option, none, some, same, holds_text, truthy,
  or_else, if◌then◌else◌, lookup, insert, Dict,
}
use elonew.Common.Errors.{
  ok, ticket_not_found, ticket_order_access_denied, ticket_order_link_unsupported,
}
use elonew.Common.Action.{Action, ◌>>=◌, ◌>>◌, gets, attempt, or_throw, throw_if}
use elonew.Orders.Repository.{OrderRow}
use elonew.Tickets.Entity.{
  Role, client, booster, admin, Ticket, TicketStatus, waiting_support, record_reply, update_status,
}

pub record Desk : Type 0 where
  pub tickets : Dict Ticket
  pub orders : Dict OrderRow

unfoldable pub find_by_id : String → Action Desk (Option Ticket)
find_by_id id d = (ok (lookup id d.tickets), d)

abbrev is_row_of : String → Option OrderRow → Bool
is_row_of user none = false
is_row_of user (some r) = holds_text r.client_id user

unfoldable pub is_client_order_owner : String → String → Action Desk Bool
is_client_order_owner order user = gets (λ d. is_row_of user (lookup order d.orders))

unfoldable pub write_ticket : Ticket → Action Desk Ticket
write_ticket t d = (ok t, record d { tickets = insert t.id t d.tickets })

unfoldable pub create_with_initial_message :
    String → String → Option String → String → String → ℕ → Action Desk Ticket
unfolding write_ticket
create_with_initial_message id user order subject content now = write_ticket (record {
  id = id;
  user_id = user;
  order_id = order;
  subject = subject;
  status = waiting_support;
  created_at = now;
  updated_at = now;
  messages = record { sender_id = user; content = content; created_at = now } ∷ [];
})

-- `addMessage`
unfoldable pub add_message : Ticket → String → String → ℕ → Action Desk Ticket
unfolding write_ticket
add_message t sender content now = write_ticket (record t {
  messages =
      t.messages ++ (record { sender_id = sender; content = content; created_at = now } ∷ []);
})

abbrev is_client : Role → Bool
is_client client = true
is_client booster = false
is_client admin = false

-- create-ticket.use-case.ts
unfoldable pub create_ticket :
    String → String → Role → String → String → Option String → ℕ → Action Desk Ticket
unfolding is_client_order_owner create_with_initial_message
create_ticket id user role subject content order now = do
  owns ← is_client_order_owner (or_else order "") user
  if truthy order
      then (do
        throw_if (not (is_client role)) ticket_order_link_unsupported
        throw_if (not owns) ticket_order_access_denied
        create_with_initial_message id user order subject content now)
      else create_with_initial_message id user order subject content now

abbrev of_user : String → Option Ticket → Option Ticket
of_user user none = none
of_user user (some t) = if same t.user_id user then some t else none

-- get-ticket.use-case.ts
unfoldable pub get_ticket : String → String → Action Desk Ticket
unfolding find_by_id
get_ticket id user = do found ← find_by_id id; or_throw (of_user user found) ticket_not_found

-- add-ticket-message.use-case.ts
unfoldable pub add_ticket_message : String → String → Role → String → ℕ → Action Desk Ticket
unfolding find_by_id add_message
add_ticket_message id user role content now = do
  found ← find_by_id id
  ticket ← or_throw (of_user user found) ticket_not_found
  replied ← attempt (record_reply user role now ticket)
  add_message replied user content now

-- add-admin-ticket-message.use-case.ts
unfoldable pub add_admin_ticket_message : String → String → String → ℕ → Action Desk Ticket
unfolding find_by_id add_message
add_admin_ticket_message id user content now = do
  found ← find_by_id id
  ticket ← or_throw found ticket_not_found
  replied ← attempt (record_reply user admin now ticket)
  add_message replied user content now

-- update-ticket-status.use-case.ts
unfoldable pub update_ticket_status : String → TicketStatus → ℕ → Action Desk Ticket
unfolding find_by_id write_ticket
update_ticket_status id status now = do
  found ← find_by_id id
  ticket ← or_throw found ticket_not_found
  write_ticket (update_status status now ticket)
