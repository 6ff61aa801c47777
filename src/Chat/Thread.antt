-- ===== src/Chat/Thread.antt =====
-- apps/api/src/modules/chat: the two use cases and prisma-chat.repository.ts. The messages of a chat
-- stand in the order of `createdAt` and `id` descending, the newest first. The sender's name, and the
-- ids of new rows, are arguments.
use elonew.Base.{
  ℕ, zero, suc, String, Bool, true, false, not, ◌&&◌, List, [], ◌∷◌, ◌++◌, Option, none, some, same,
  holds_text, is_some, length, or_else, if◌then◌else◌, ltb, Dict, lookup, insert,
}
use elonew.Common.Errors.{
  ok, chat_order_not_found, chat_forbidden, chat_not_writable, chat_message_not_found,
}
use elonew.Common.Action.{Action, ◌>>=◌, ◌>>◌, pure, gets, or_throw, throw_if}
use elonew.Inbox.Store.{Notification, NotificationPayload, Inbox, new_row, upsert}
use elonew.Orders.Status.{OrderStatus, is_status}
use elonew.Tickets.Entity.{Role, client, booster, admin}

-- `ChatMessageRecord`, with the sender's id and name; the chat and its order are the table's key.
pub record ChatMessage : Type 0 where
  pub id : String
  pub sender_id : String
  pub sender_username : String
  pub content : String
  pub created_at : ℕ

-- `ChatOrderRecord`
pub record ChatOrder : Type 0 where
  pub client_id : Option String
  pub booster_id : Option String
  pub status : OrderStatus
  pub chat_id : Option String

-- The tables of the chats, and the notifications with their events.
pub record Chats : Type 0 where
  pub orders : Dict ChatOrder
  pub messages : Dict (List ChatMessage)
  pub inbox : Inbox

abbrev pub messages_of : String → Chats → List ChatMessage
messages_of chat c = or_else (lookup chat c.messages) []

-- `buildChatNotificationPayload`
abbrev pub build_chat_notification_payload : String → ChatMessage → NotificationPayload
build_chat_notification_payload order m = record {
  order_id = order;
  chat_message_id = m.id;
  sender_id = m.sender_id;
  sender_username = m.sender_username;
}

-- The row that the upsert of a message's notification would create.
abbrev pub notification_of : String → String → String → ChatMessage → Notification
notification_of id recipient order m =
    new_row id recipient order (build_chat_notification_payload order m) m.created_at

-- `createMessageWithNotification`: one transaction.
unfoldable pub create_message_with_notification :
    String → String → String → ChatMessage → Option String → Action Chats ChatMessage
create_message_with_notification chat order notification m recipient c = (
  ok m,
  record c {
    messages = insert chat (m ∷ messages_of chat c) c.messages;
    inbox = elim recipient [
      | none ↦ c.inbox
      | some r ↦ (upsert (notification_of notification r order m) c.inbox).1
    ];
  },
)

-- `canRead` and `canWrite`, an administrator apart
unfoldable pub is_side : Role → String → ChatOrder → Bool
is_side client user o = holds_text o.client_id user
is_side booster user o = holds_text o.booster_id user
is_side admin user o = false

abbrev pub is_admin : Role → Bool
is_admin admin = true
is_admin client = false
is_admin booster = false

-- `getRecipientId`
unfoldable pub get_recipient_id : Role → String → ChatOrder → Option String
get_recipient_id client user o = if holds_text o.client_id user then o.booster_id else none
get_recipient_id booster user o = if holds_text o.booster_id user then o.client_id else none
get_recipient_id admin user o = none

-- send-chat-message.use-case.ts
unfoldable pub send_chat_message :
    String → String → String → String → Role → String → String → ℕ → Action Chats ChatMessage
unfolding create_message_with_notification
send_chat_message id notification user username role order_id content now = do
  found ← gets (λ c. lookup order_id c.orders)
  order ← or_throw found chat_order_not_found
  throw_if (is_admin role) chat_forbidden
  throw_if (not (is_side role user order)) chat_order_not_found
  throw_if (not (is_status order.status OrderStatus.in_progress)) chat_not_writable
  chat ← or_throw order.chat_id chat_order_not_found
  create_message_with_notification chat order_id notification
      (record {
        id = id;
        sender_id = user;
        sender_username = username;
        content = content;
        created_at = now;
      })
      (get_recipient_id role user order)

-- `take`, and `slice(0, limit)`
unfoldable pub take {ℓ} : {A : Type ℓ} → ℕ → List A → List A
take zero xs = []
take (suc n) [] = []
take (suc n) (x ∷ xs) = x ∷ take n xs

unfoldable pub reverse {ℓ} : {A : Type ℓ} → List A → List A
reverse [] = []
reverse (x ∷ xs) = reverse xs ++ (x ∷ [])

-- `cursor: { id }, skip: 1`: what comes after the message, if there is one of that id.
unfoldable pub after_message : String → List ChatMessage → Option (List ChatMessage)
after_message id [] = none
after_message id (m ∷ ms) = let rest = after_message id ms in if same m.id id then some ms else rest

unfoldable pub last_id : List ChatMessage → Option String
last_id [] = none
last_id (m ∷ ms) = let rest = last_id ms in if is_some rest then rest else some m.id

-- `ListChatMessagesOutput`
pub record MessagePage : Type 0 where
  pub items : List ChatMessage
  pub next_cursor : Option String

-- The answer of `listMessages` from the rows at and after the cursor.
unfoldable pub page_of : ℕ → List ChatMessage → MessagePage
page_of limit rows =
    let fetched = take (suc limit) rows in
    let page = take limit fetched in
    record {
      items = reverse page;
      next_cursor = if ltb limit (length fetched) then last_id page else none;
    }

-- The rows that `findMany` starts from.
unfoldable pub from_cursor : Option String → List ChatMessage → Option (List ChatMessage)
from_cursor none rows = some rows
from_cursor (some id) rows = after_message id rows

-- `listMessages`
unfoldable pub list_messages : String → ℕ → Option String → Action Chats MessagePage
unfolding from_cursor page_of
list_messages chat limit cursor = do
  rows ← gets (λ c. from_cursor cursor (messages_of chat c))
  found ← or_throw rows chat_message_not_found
  pure (page_of limit found)

-- list-chat-messages.use-case.ts
unfoldable pub list_chat_messages :
    String → Role → String → ℕ → Option String → Action Chats MessagePage
unfolding list_messages
list_chat_messages user role order_id limit cursor = do
  found ← gets (λ c. lookup order_id c.orders)
  order ← or_throw found chat_order_not_found
  throw_if (not (is_admin role) && not (is_side role user order)) chat_order_not_found
  elim order.chat_id [
    | none ↦ pure (record { items = []; next_cursor = none })
    | some chat ↦ list_messages chat limit cursor
  ]
