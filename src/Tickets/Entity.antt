-- ===== src/Tickets/Entity.antt =====
-- apps/api/src/modules/tickets/domain/ticket.entity.ts: the `Ticket` class, with its messages as the
-- row of infrastructure/repositories/prisma-ticket.repository.ts holds them. A status outside the enum
-- cannot be written here.
use elonew.Base.{ℕ, String, not, List, Option, same, if◌then◌else◌}
use elonew.Common.Errors.{Result, ok, err, ticket_access_denied}

-- packages/auth/src/roles/role.ts
pub data Role : Type 0 where
  client booster admin : Role

-- `opened` is `OPEN`.
pub data TicketStatus : Type 0 where
  opened waiting_user waiting_support closed : TicketStatus

pub record TicketMessage : Type 0 where
  pub sender_id : String
  pub content : String
  pub created_at : ℕ

pub record Ticket : Type 0 where
  pub id : String
  pub user_id : String
  pub order_id : Option String
  pub subject : String
  pub status : TicketStatus
  pub created_at : ℕ
  pub updated_at : ℕ
  pub messages : List TicketMessage

abbrev user_reply : String → ℕ → Ticket → Result Ticket
user_reply sender now t =
    if not (same sender t.user_id)
    then err ticket_access_denied
    else ok (record t { status = waiting_support; updated_at = now })

unfoldable pub record_reply : String → Role → ℕ → Ticket → Result Ticket
record_reply sender admin now t = ok (record t { status = waiting_user; updated_at = now })
record_reply sender client now t = user_reply sender now t
record_reply sender booster now t = user_reply sender now t

unfoldable pub update_status : TicketStatus → ℕ → Ticket → Ticket
update_status status now t = record t { status = status; updated_at = now }
