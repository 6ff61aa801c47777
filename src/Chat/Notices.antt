-- ===== src/Chat/Notices.antt =====
-- The unread counts that the users of the chats are told, message after message and reading after reading.
-- Code: apps/api/src/modules/chat and apps/api/src/modules/notifications
use mathlib.Core.Path.{subst}
use elonew.Base.{
  ℕ, String, All, Option, none, some, inl, inr, ◌⊎◌, ◌≡◌, ◌≢◌, refl, sym, Bool-cases, Option-cases,
  lookup,
}
use elonew.Orders.Status.{OrderStatus, is_status}
use elonew.Inbox.Store.{NotificationPayload, Inbox, MarkReadInput, count_unread}
use elonew.Inbox.UseCases.{
  upsert_chat_notification, mark_notification_read, mark_all_notifications_read,
}
use elonew.Inbox.Badge.{told, IsTold, upsert-IsTold, mark_read-IsTold, mark_all_read-IsTold}
use elonew.Chat.Thread.{
  ChatMessage, Chats, is_admin, is_side, get_recipient_id, create_message_with_notification,
  send_chat_message,
}
use elonew.Tickets.Entity.{Role}

-- No notification has the id.
abbrev pub IsFresh : String → Inbox → Type 0
IsFresh id s = All (λ n. n.id ≢ id) s.notifications

-- What the users and the chat do to the notifications, one call at a time.
pub data Move : Chats → Chats → Type 0 where
  send :
      (c : Chats) (id notification user username order content : String) (role : Role) (now : ℕ)
      → IsFresh notification c.inbox
      → Move c (send_chat_message id notification user username role order content now c).1
  notify :
      (c : Chats) (id recipient : String) (payload : NotificationPayload) (now : ℕ)
      → IsFresh id c.inbox
      → Move c (record c { inbox = (upsert_chat_notification id recipient payload now c.inbox).1 })
  read :
      (c : Chats) (i : MarkReadInput)
      → Move c (record c { inbox = (mark_notification_read i c.inbox).1 })
  read_every :
      (c : Chats) (user : String) (at : ℕ)
      → Move c (record c { inbox = (mark_all_notifications_read user at c.inbox).1 })

pub data Moves (c : Chats) : Chats → Type 0 where
  start : Moves c c
  after : {d e : Chats} → Moves c d → Move d e → Moves c e

create_message-IsTold :
    (chat order notification : String) (m : ChatMessage) (recipient : Option String) (c : Chats)
    → IsFresh notification c.inbox
    → IsTold c.inbox
    → IsTold (create_message_with_notification chat order notification m recipient c).1.inbox
unfolding create_message_with_notification
create_message-IsTold chat order notification m none c fresh t = t
create_message-IsTold chat order notification m (some r) c fresh t = upsert-IsTold _ c.inbox fresh t

-- A call sends or leaves everything as it was.
send-outcome :
    (c : Chats) (id notification user username order content : String) (role : Role) (now : ℕ)
    → let c' = (send_chat_message id notification user username role order content now c).1 in
      (c' ≡ c)
      ⊎ ((chat : String) × (m : ChatMessage) × (recipient : Option String) × (c'
            ≡ (create_message_with_notification chat order notification m recipient c).1))
unfolding send_chat_message
send-outcome c id notification user username order content role now =
    elim (Option-cases (lookup order c.orders)) [
      | inl gone ↦ inl (rw gone refl)
      | inr (o, found) ↦ elim (Bool-cases (is_admin role)) [
        | inl staff ↦ inl (rw (found, staff) refl)
        | inr party ↦ elim (Bool-cases (is_side role user o)) [
          | inr foreign ↦ inl (rw (found, party, foreign) refl)
          | inl own ↦ elim (Bool-cases (is_status o.status OrderStatus.in_progress)) [
            | inr closed ↦ inl (rw (found, party, own, closed) refl)
            | inl going ↦ elim (Option-cases o.chat_id) [
              | inl no_chat ↦ inl (rw (found, party, own, going, no_chat) refl)
              | inr (chat, e) ↦ inr (
                chat,
                record {
                  id = id;
                  sender_id = user;
                  sender_username = username;
                  content = content;
                  created_at = now;
                },
                get_recipient_id role user o,
                rw (found, party, own, going, e) refl,
              )
            ]
          ]
        ]
      ]
    ]

send-IsTold :
    (c : Chats) (id notification user username order content : String) (role : Role) (now : ℕ)
    → IsFresh notification c.inbox
    → IsTold c.inbox
    → IsTold (send_chat_message id notification user username role order content now c).1.inbox
send-IsTold c id notification user username order content role now fresh t =
    elim (send-outcome c id notification user username order content role now) [
      | inl same_chats ↦ subst (λ (d : Chats). IsTold d.inbox) (sym same_chats) t
      | inr (chat, m, recipient, sent) ↦
          subst (λ (d : Chats). IsTold d.inbox) (sym sent)
            (create_message-IsTold chat order notification m recipient c fresh t)
    ]

Move-IsTold : {c d : Chats} → Move c d → IsTold c.inbox → IsTold d.inbox
unfolding upsert_chat_notification mark_notification_read mark_all_notifications_read
Move-IsTold (send c id notification user username order content role now fresh) t =
    send-IsTold c id notification user username order content role now fresh t
Move-IsTold (notify c id recipient payload now fresh) t = upsert-IsTold _ c.inbox fresh t
Move-IsTold (read c i) t = mark_read-IsTold i c.inbox t
Move-IsTold (read_every c user at) t = mark_all_read-IsTold user at at c.inbox t

Moves-IsTold : {c d : Chats} → Moves c d → IsTold c.inbox → IsTold d.inbox
Moves-IsTold start t = t
Moves-IsTold (after ms m) t = Move-IsTold m (Moves-IsTold ms t)

-- Whatever is sent and read, in any order, every user's latest event carries the number of their
-- unread notifications, and a user without an event has none: from a start at which this is so, where
-- no two notifications have one id, and where a new notification is given an id that none has.
pub badge_in_sync :
    {c d : Chats} (user : String)
    → IsTold c.inbox
    → Moves c d
    → told user d.inbox.outbox ≡ count_unread user d.inbox.notifications
badge_in_sync user t ms = (Moves-IsTold ms t).counted user
