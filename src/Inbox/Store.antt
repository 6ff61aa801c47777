-- ===== src/Inbox/Store.antt =====
-- apps/api/src/modules/notifications/infrastructure/repositories/prisma-notification.repository.ts. There
-- is one type of notification, so a row is that of its recipient and `aggregateKey`; its `createdAt` and
-- `updatedAt` are left out. The events that are written to the outbox stand with the newest first.
use elonew.Base.{
  ℕ, suc, String, Bool, not, ◌&&◌, List, [], ◌∷◌, Option, none, some, find, any, same, is_some,
  or_else, leb, ◌==◌, if◌then◌else◌,
}

-- The payload of `CHAT_MESSAGE_CREATED`
pub record NotificationPayload : Type 0 where
  pub order_id : String
  pub chat_message_id : String
  pub sender_id : String
  pub sender_username : String

pub record Notification : Type 0 where
  pub id : String
  pub recipient_id : String
  pub aggregate_key : String
  pub payload : NotificationPayload
  pub read_at : Option ℕ
  pub activity_at : ℕ

-- The events `notification.updated` and `notification.read-all`, each with the unread count.
pub data NotificationEvent : Type 0 where
  updated : Notification → ℕ → NotificationEvent
  read_all : ℕ → ℕ → ℕ → NotificationEvent

pub record Inbox : Type 0 where
  pub notifications : List Notification
  pub outbox : List (String × NotificationEvent)

unfoldable pub is_unread_of : String → Notification → Bool
is_unread_of recipient n = same n.recipient_id recipient && not (is_some n.read_at)

-- `countUnread`, and `countUnreadWithin`
unfoldable pub count_unread : String → List Notification → ℕ
count_unread recipient [] = 0
count_unread recipient (n ∷ ns) =
    let rest = count_unread recipient ns in if is_unread_of recipient n then suc rest else rest

-- `updateMany`, and `update`
unfoldable pub update_where :
    (Notification → Bool) → (Notification → Notification) → List Notification → List Notification
update_where p f [] = []
update_where p f (n ∷ ns) = (if p n then f n else n) ∷ update_where p f ns

unfoldable pub count_where : (Notification → Bool) → List Notification → ℕ
count_where p [] = 0
count_where p (n ∷ ns) = let rest = count_where p ns in if p n then suc rest else rest

abbrev pub write_to_outbox : String → NotificationEvent → Inbox → Inbox
write_to_outbox recipient e s = record s { outbox = (recipient, e) ∷ s.outbox }

unfoldable pub write_updated_event : Notification → Inbox → Inbox
write_updated_event n s =
    write_to_outbox n.recipient_id (updated n (count_unread n.recipient_id s.notifications)) s

-- The unique key of a row, beside its type.
abbrev pub has_key : Notification → Notification → Bool
has_key fresh n = same n.recipient_id fresh.recipient_id && same n.aggregate_key fresh.aggregate_key

-- The `update` of an upsert; `fresh` is the row that it would create.
abbrev pub refreshed_row : Notification → Notification → Notification
refreshed_row fresh n = record n {
  payload = fresh.payload;
  read_at = none;
  activity_at = fresh.activity_at;
}

unfoldable pub upsert_rows : Notification → List Notification → List Notification
upsert_rows fresh [] = fresh ∷ []
upsert_rows fresh (n ∷ ns) =
    if has_key fresh n then refreshed_row fresh n ∷ ns else n ∷ upsert_rows fresh ns

unfoldable pub upserted_row : Notification → List Notification → Notification
upserted_row fresh [] = fresh
upserted_row fresh (n ∷ ns) =
    if has_key fresh n then refreshed_row fresh n else upserted_row fresh ns

abbrev pub new_row : String → String → String → NotificationPayload → ℕ → Notification
new_row id recipient key payload now = record {
  id = id;
  recipient_id = recipient;
  aggregate_key = key;
  payload = payload;
  read_at = none;
  activity_at = now;
}

-- `upsert`, of the row that it would create
unfoldable pub upsert : Notification → Inbox → Notification × Inbox
unfolding write_updated_event
upsert fresh s = (
  upserted_row fresh s.notifications,
  write_updated_event (upserted_row fresh s.notifications)
      (record s { notifications = upsert_rows fresh s.notifications }),
)

pub record MarkReadInput : Type 0 where
  pub notification_id : String
  pub recipient_id : String
  pub read_at : ℕ
  pub expected_activity_at : Option ℕ

-- `NotificationRecord | 'changed' | null`
pub data MarkReadResult : Type 0 where
  marked : Notification → MarkReadResult
  changed missing : MarkReadResult

abbrev pub has_id : String → Notification → Bool
has_id id n = same n.id id

abbrev pub is_own : MarkReadInput → Notification → Bool
is_own i n = has_id i.notification_id n && same n.recipient_id i.recipient_id

abbrev pub is_expected : MarkReadInput → ℕ → Notification → Bool
is_expected i at n = is_own i n && n.activity_at == at

abbrev pub marked_or_missing : Option Notification → MarkReadResult
marked_or_missing none = missing
marked_or_missing (some n) = marked n

-- `applyMarkRead` where the client says which activity it has seen
unfoldable pub mark_expected :
    MarkReadInput → ℕ → List Notification → MarkReadResult × List Notification
mark_expected i at ns =
    if any (is_expected i at) ns
    then (let ns' =
          update_where (is_expected i at) (λ n. record n { read_at = some i.read_at }) ns in
        (marked_or_missing (find (has_id i.notification_id) ns'), ns'))
    else ((if any (is_own i) ns then changed else missing), ns)

-- `applyMarkRead` where it does not
unfoldable pub mark_any : MarkReadInput → List Notification → MarkReadResult × List Notification
mark_any i ns = elim (find (is_own i) ns) [
  | none ↦ (missing, ns)
  | some n ↦
      let ns' =
        update_where (has_id n.id) (λ m. record m { read_at = some (or_else n.read_at i.read_at) })
          ns in
      (marked_or_missing (find (has_id n.id) ns'), ns')
]

unfoldable pub apply_mark_read :
    MarkReadInput → List Notification → MarkReadResult × List Notification
unfolding mark_expected mark_any
apply_mark_read i ns = elim i.expected_activity_at [
  | none ↦ mark_any i ns
  | some at ↦ mark_expected i at ns
]

abbrev pub told_of : MarkReadResult → Inbox → Inbox
told_of (marked n) s = write_updated_event n s
told_of changed s = s
told_of missing s = s

-- `markRead`
unfoldable pub mark_read : MarkReadInput → Inbox → MarkReadResult × Inbox
unfolding apply_mark_read
mark_read i s =
    let (r, ns) = apply_mark_read i s.notifications in
    (r, told_of r (record s { notifications = ns }))

abbrev pub is_read_by : String → ℕ → Notification → Bool
is_read_by recipient cutoff n = is_unread_of recipient n && leb n.activity_at cutoff

-- `MarkAllNotificationsReadResult`
pub record MarkAllResult : Type 0 where
  pub updated_count : ℕ
  pub unread_count : ℕ

-- `markAllRead`
unfoldable pub mark_all_read : String → ℕ → ℕ → Inbox → MarkAllResult × Inbox
mark_all_read recipient at cutoff s =
    let ns =
      update_where (is_read_by recipient cutoff) (λ n. record n { read_at = some at })
        s.notifications in
    let unread = count_unread recipient ns in
    (
      record {
        updated_count = count_where (is_read_by recipient cutoff) s.notifications;
        unread_count = unread;
      },
      write_to_outbox recipient (read_all at cutoff unread) (record s { notifications = ns }),
    )
