-- ===== src/Tickets/Tests.antt =====
-- Runs of the tickets.
-- Code: apps/api/src/modules/tickets
use elonew.Base.{[], ◌∷◌, none, ◌≡◌, refl, lookup}
use elonew.Tickets.Entity.{Ticket, closed}
use elonew.Tickets.Desk.{Desk, get_ticket}
use elonew.Common.Errors.{ok}

abbrev lost_lp : Ticket
lost_lp = record {
  id = "k1";
  user_id = "ann";
  order_id = none;
  subject = "lp";
  status = closed;
  created_at = 1;
  updated_at = 1;
  messages = [];
}

abbrev desk : Desk
desk = record { tickets = ("k1", lost_lp) ∷ []; orders = [] }

-- Their own ticket is shown to a user.
own_ticket : get_ticket "k1" "ann" desk ≡ (ok lost_lp, desk)
unfolding get_ticket lookup
own_ticket = refl
