-- ===== src/Chat/Tests.antt =====
-- A chat of three messages, read in pages of two.
-- Code: apps/api/src/modules/chat
use elonew.Base.{ℕ, String, [], ◌∷◌, some, none, ◌≡◌, ◌≢◌, refl, arith, eq_iff, same, false, lookup}
use elonew.Chat.Notices.{start, after, send, read_every, badge_in_sync}
use elonew.Inbox.Badge.{IsTold, told}
use elonew.Inbox.Rows
use elonew.Inbox.Store.{Inbox, count_unread}
use elonew.Inbox.UseCases.{mark_all_notifications_read}
use elonew.Tickets.Entity.{client}
use elonew.Orders.Status.{OrderStatus}
use elonew.Chat.Thread.{ChatMessage, send_chat_message, Chats, reverse}
use elonew.Chat.Paging.{Distinct, read_pages, read_pages_complete}

abbrev says : String → String → ℕ → ChatMessage
says id sender now = record {
  id = id;
  sender_id = sender;
  sender_username = sender;
  content = "gl";
  created_at = now;
}

abbrev chats : Chats
chats = record {
  orders =
      (
        "o1",
        record {
          client_id = some "ann";
          booster_id = some "bob";
          status = OrderStatus.in_progress;
          chat_id = some "c1";
        },
      )
      ∷ [];
  messages = ("c1", says "m3" "ann" 3 ∷ says "m2" "bob" 2 ∷ says "m1" "ann" 1 ∷ []) ∷ [];
  inbox = record { notifications = []; outbox = [] };
}

differ : (a b : String) → same a b ≡ false → a ≢ b
differ a b h e = ground (arith, eq_iff a b)

read_pages_complete_example :
    read_pages 3 "c1" 2 none chats
    ≡ (says "m1" "ann" 1 ∷ says "m2" "bob" 2 ∷ says "m3" "ann" 3 ∷ [])
unfolding Distinct reverse lookup
read_pages_complete_example =
    read_pages_complete "c1" 2 chats (omega arith) (
      (differ "m2" "m3" refl, (differ "m1" "m3" refl, tt)),
      ((differ "m1" "m2" refl, tt), (tt, tt)),
    )

abbrev quiet : Inbox
quiet = record { notifications = []; outbox = [] }

abbrev game : Chats
game = record {
  orders =
      (
        "o1",
        record {
          client_id = some "ann";
          booster_id = some "bob";
          status = OrderStatus.in_progress;
          chat_id = some "c1";
        },
      )
      ∷ [];
  messages = [];
  inbox = quiet;
}

quiet-IsTold : IsTold quiet
unfolding told Rows.Distinct count_unread
quiet-IsTold = record { distinct = tt; counted = λ _. refl }

abbrev sent : Chats
sent = (send_chat_message "m1" "n1" "ann" "Ann" client "o1" "hi" 10 game).1

abbrev after_reading : Chats
after_reading = record (sent) { inbox = (mark_all_notifications_read "bob" 11 sent.inbox).1 }

badge_in_sync_example :
    told "bob" after_reading.inbox.outbox ≡ count_unread "bob" after_reading.inbox.notifications
badge_in_sync_example = badge_in_sync {c = game} {d = after_reading} "bob" quiet-IsTold (
    after (after start (send game "m1" "n1" "ann" "Ann" "o1" "hi" client 10 tt))
      (read_every sent "bob" 11))
