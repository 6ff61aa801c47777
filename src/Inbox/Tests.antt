-- ===== src/Inbox/Tests.antt =====
-- An unread notification, and the theorems about reading at concrete inputs.
-- Code: apps/api/src/modules/notifications
use elonew.Base.{some, none, [], ◌∷◌, ◌≡◌, ◌≢◌, refl, arith, eq_iff}
use elonew.Common.Errors.{err, notification_read_conflict}
use elonew.Inbox.Fresh.{live_is_fresh}
use elonew.Inbox.Ids.{id_after, id_after-IsIdOrder}
use elonew.Inbox.Live.{apply_notification_updated, apply_notifications_read_all}
use elonew.Inbox.ReadAll.{live_reads_all}
use elonew.Inbox.Reading.{unseen_conflicts}
use elonew.Inbox.Rows.{Distinct}
use elonew.Inbox.Store.{
  upsert, updated, read_all, Notification, Inbox, MarkReadInput, count_unread, mark_all_read,
}
use elonew.Inbox.UseCases.{list_page, mark_notification_read}

abbrev seen : Notification
seen = record {
  id = "n1";
  recipient_id = "bob";
  aggregate_key = "o1";
  payload = record {
    order_id = "o1";
    chat_message_id = "m1";
    sender_id = "ann";
    sender_username = "Ann";
  };
  read_at = none;
  activity_at = 10;
}

abbrev one_unread : Inbox
one_unread = record { notifications = seen ∷ []; outbox = [] }

abbrev stale : MarkReadInput
stale = record {
  notification_id = "n1";
  recipient_id = "bob";
  read_at = 12;
  expected_activity_at = some 9;
}

unseen_conflicts_example :
    mark_notification_read stale one_unread ≡ (err notification_read_conflict, one_unread)
unfolding Distinct
unseen_conflicts_example =
    unseen_conflicts stale one_unread 9 {n = seen} (tt, tt) refl refl (omega arith)

abbrev fresh : Notification
fresh = record (seen) { id = "n2"; activity_at = 20 }

n1_not_n2 : seen.id ≢ fresh.id
n1_not_n2 e = ground (arith, eq_iff seen.id fresh.id)

live_is_fresh_example :
    let (n, s') = upsert fresh one_unread in
    let unread = count_unread "bob" s'.notifications in
    let live =
      apply_notification_updated id_after
        (list_page id_after (λ cursor rows. []) "bob" 10 none one_unread)
        n
        unread in
    let listed = list_page id_after (λ cursor rows. []) "bob" 10 none s' in
    (s'.outbox ≡ ("bob", updated n unread) ∷ one_unread.outbox)
    × (live.items ≡ listed.items)
    × (live.unread_count ≡ listed.unread_count)
unfolding Distinct
live_is_fresh_example =
    live_is_fresh id_after id_after-IsIdOrder (λ cursor rows. []) fresh one_unread (tt, tt)
      (n1_not_n2, tt) (omega arith, tt)

live_reads_all_example :
    let (r, s') = mark_all_read "bob" 30 30 one_unread in
    let live =
      apply_notifications_read_all
        (list_page id_after (λ cursor rows. []) "bob" 10 none one_unread)
        30
        30
        r.unread_count in
    let listed = list_page id_after (λ cursor rows. []) "bob" 10 none s' in
    (s'.outbox ≡ ("bob", read_all 30 30 r.unread_count) ∷ one_unread.outbox)
    × (live.items ≡ listed.items)
    × (live.unread_count ≡ listed.unread_count)
live_reads_all_example = live_reads_all id_after (λ cursor rows. []) "bob" 10 30 one_unread
