-- ===== src/Inbox/UseCases.antt =====
-- The use cases of apps/api/src/modules/notifications, and `list` of its repository. How two ids compare,
-- and the rows that a cursor leads to, are the database's.
use elonew.Base.{
  ℕ, zero, suc, String, Bool, ◌&&◌, ◌||◌, List, [], ◌∷◌, Option, none, some, is_some, length, ltb,
  ◌==◌, same, if◌then◌else◌,
}
use elonew.Common.Errors.{Result, ok, err, notification_not_found, notification_read_conflict}
use elonew.Common.Action.{Action}
use elonew.Inbox.Store.{
  Notification, NotificationPayload, Inbox, MarkReadInput, MarkReadResult, marked, changed, missing,
  MarkAllResult, new_row, count_unread, mark_read, mark_all_read, upsert,
}

-- upsert-chat-notification.use-case.ts
unfoldable pub upsert_chat_notification :
    String → String → NotificationPayload → ℕ → Action Inbox Notification
upsert_chat_notification id recipient payload now s =
    let (n, s') = upsert (new_row id recipient payload.order_id payload now) s in (ok n, s')

abbrev pub answer_of : MarkReadResult → Result Notification
answer_of (marked n) = ok n
answer_of changed = err notification_read_conflict
answer_of missing = err notification_not_found

-- mark-notification-read.use-case.ts
unfoldable pub mark_notification_read : MarkReadInput → Action Inbox Notification
mark_notification_read i s = let (r, s') = mark_read i s in (answer_of r, s')

-- mark-all-notifications-read.use-case.ts: the cut-off is the time of the reading.
unfoldable pub mark_all_notifications_read : String → ℕ → Action Inbox MarkAllResult
mark_all_notifications_read recipient at s =
    let (r, s') = mark_all_read recipient at at s in (ok r, s')

unfoldable pub of_recipient : String → List Notification → List Notification
of_recipient recipient [] = []
of_recipient recipient (n ∷ ns) =
    let rest = of_recipient recipient ns in if same n.recipient_id recipient then n ∷ rest else rest

unfoldable pub take : ℕ → List Notification → List Notification
take zero ns = []
take (suc k) [] = []
take (suc k) (n ∷ ns) = n ∷ take k ns

unfoldable pub last_id : List Notification → Option String
last_id [] = none
last_id (n ∷ ns) = let rest = last_id ns in if is_some rest then rest else some n.id

-- `ListNotificationsOutput`
pub record NotificationPage : Type 0 where
  pub items : List Notification
  pub next_cursor : Option String
  pub unread_count : ℕ

module _ (id_after : String → String → Bool) where
  -- `orderBy: [{ activityAt: 'desc' }, { id: 'desc' }]`: whether the row of `a` stands before that of `b`.
  abbrev pub before : Notification → Notification → Bool
  before a b =
      ltb b.activity_at a.activity_at || (a.activity_at == b.activity_at && id_after a.id b.id)

  unfoldable pub insert_by_activity : Notification → List Notification → List Notification
  insert_by_activity n [] = n ∷ []
  insert_by_activity n (m ∷ ms) = if before m n then m ∷ insert_by_activity n ms else n ∷ m ∷ ms

  unfoldable pub sort_by_activity : List Notification → List Notification
  sort_by_activity [] = []
  sort_by_activity (n ∷ ns) = insert_by_activity n (sort_by_activity ns)

module _ (id_after : String → String → Bool)
    (rows_after : String → List Notification → List Notification) where
  abbrev pub rows_from : Option String → List Notification → List Notification
  rows_from none rows = rows
  rows_from (some cursor) rows = rows_after cursor rows

  -- `list`
  unfoldable pub list_page : String → ℕ → Option String → Inbox → NotificationPage
  list_page recipient limit cursor s =
      let rows =
        take (suc limit)
          (rows_from cursor (sort_by_activity id_after (of_recipient recipient s.notifications))) in
      let page = take limit rows in
      record {
        items = page;
        next_cursor = if ltb limit (length rows) then last_id page else none;
        unread_count = count_unread recipient s.notifications;
      }

  -- list-notifications.use-case.ts
  unfoldable pub list_notifications : String → ℕ → Option String → Action Inbox NotificationPage
  list_notifications recipient limit cursor s = (ok (list_page recipient limit cursor s), s)
