-- ===== src/Tickets/Talk.antt =====
-- Who takes part in a ticket's conversation, and what a message does to it.
-- Code: apps/api/src/modules/tickets
use elonew.Base.{
  ℕ, String, Bool, true, false, if◌then◌else◌, [], ◌∷◌, ◌++◌, some, ◌≡◌, ◌≢◌, arith, eq_iff, lookup,
  lookup-insert_self,
}
use elonew.Common.Errors.{err, ticket_not_found}
use elonew.Tickets.Entity.{
  Role, client, booster, Ticket, waiting_support, waiting_user, record_reply,
}
use elonew.Tickets.Desk.{Desk, get_ticket, add_ticket_message, add_admin_ticket_message}

-- A ticket with one message more, and the side that the next word is awaited from.
abbrev pub answered : Bool → String → String → ℕ → Ticket → Ticket
answered by_admin sender content now t = record t {
  status = if by_admin then waiting_user else waiting_support;
  updated_at = now;
  messages =
      t.messages ++ (record { sender_id = sender; content = content; created_at = now } ∷ []);
}

-- The ticket of another user does not exist for a user: reading it and writing to it both answer "not
-- found", and change nothing.
pub foreign_ticket :
    (id user content : String) (role : Role) (now : ℕ) (d : Desk) {t : Ticket}
    → lookup id d.tickets ≡ some t
    → t.user_id ≢ user
    → (get_ticket id user d ≡ (err ticket_not_found, d))
      × (add_ticket_message id user role content now d ≡ (err ticket_not_found, d))
unfolding get_ticket add_ticket_message
foreign_ticket id user content role now d {t} found differs = ground (arith, eq_iff t.user_id user)

-- A message of a ticket's own client or booster is appended and hands the ticket to the support, and a
-- message of an administrator is appended and hands it back, whatever its status was, closed
-- included; nothing else of the ticket changes. The ticket stands under its id.
pub message_hands_over :
    (user content : String) (now : ℕ) (d : Desk) {t : Ticket}
    → lookup t.id d.tickets ≡ some t
    → (lookup t.id (add_ticket_message t.id t.user_id client content now d).1.tickets
        ≡ some (answered false t.user_id content now t))
      × (lookup t.id (add_ticket_message t.id t.user_id booster content now d).1.tickets
          ≡ some (answered false t.user_id content now t))
      × (lookup t.id (add_admin_ticket_message t.id user content now d).1.tickets
          ≡ some (answered true user content now t))
unfolding add_ticket_message add_admin_ticket_message record_reply
message_hands_over user content now d {t} found =
    grind (arith, lookup-insert_self, eq_iff t.user_id t.user_id)
