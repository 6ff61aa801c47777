-- ===== src/Inbox/Live.antt =====
-- apps/web/src/modules/notifications/presentation/notification-live-state.ts: the notifications that a page
-- shows, and the events that it applies to them. How two ids compare is `localeCompare`'s.
use elonew.Base.{ℕ, String, Bool, List, [], ◌∷◌, map, none, some, is_some, leb, if◌then◌else◌}
use elonew.Inbox.Store.{Notification, has_id}
use elonew.Inbox.UseCases.{NotificationPage, sort_by_activity, take}

abbrev pub dashboard_notification_list_limit : ℕ
dashboard_notification_list_limit = 10

-- `byId.set(notification.id, notification)`, which keeps the place of an id.
unfoldable pub put_item : Notification → List Notification → List Notification
put_item n [] = n ∷ []
put_item n (m ∷ ms) = if has_id n.id m then n ∷ ms else m ∷ put_item n ms

-- `new Map(state.items.map((item) => [item.id, item]))`, from what was set before.
unfoldable pub set_items : List Notification → List Notification → List Notification
set_items [] by_id = by_id
set_items (n ∷ ns) by_id = set_items ns (put_item n by_id)

module _ (id_after : String → String → Bool) where
  unfoldable pub apply_notification_updated : NotificationPage → Notification → ℕ → NotificationPage
  apply_notification_updated state n unread = record state {
    items =
        take dashboard_notification_list_limit
          (sort_by_activity id_after (put_item n (set_items state.items [])));
    unread_count = unread;
  }

abbrev pub read_in_list : ℕ → ℕ → Notification → Notification
read_in_list at cutoff n = record n {
  read_at =
      if is_some n.read_at then n.read_at else if leb n.activity_at cutoff then some at else none;
}

unfoldable pub apply_notifications_read_all : NotificationPage → ℕ → ℕ → ℕ → NotificationPage
apply_notifications_read_all state at cutoff unread = record state {
  items = map (read_in_list at cutoff) state.items;
  unread_count = unread;
}
