-- ===== src/Inbox/Reading.antt =====
-- What marking notifications as read leaves unread.
-- Code: apps/api/src/modules/notifications
use elonew.Base.{
  ℕ, ◌+◌, ◌<◌, String, true, false, List, [], ◌∷◌, some, find, any, All, inl, inr, ◌≡◌, ◌≢◌, refl,
  ap, ◌∙◌, arith, eq_iff, Bool-cases, ◌==◌,
}
use elonew.Common.Errors.{ok, err, notification_read_conflict}
use elonew.Inbox.Store.{
  Notification, Inbox, MarkReadInput, is_own, is_expected, is_read_by, is_unread_of, count_unread,
  count_where, update_where, mark_all_read, mark_expected, mark_read,
}
use elonew.Inbox.UseCases.{mark_notification_read, mark_all_notifications_read}
use elonew.Inbox.Rows.{Distinct, absent, any_expected-any_own, find-any}

module _ (user : String) (at cutoff : ℕ) where
  counts_split :
      (ns : List Notification)
      → count_where (is_read_by user cutoff) ns
          + count_unread user
              (update_where (is_read_by user cutoff) (λ n. record n { read_at = some at }) ns)
        ≡ count_unread user ns
  unfolding count_where count_unread update_where is_unread_of
  counts_split [] = omega arith
  counts_split (n ∷ ns) = ground (arith, counts_split ns)

  left_unread :
      (ns : List Notification)
      → All
          (λ n. is_unread_of user n ≡ true → cutoff < n.activity_at)
          (update_where (is_read_by user cutoff) (λ n. record n { read_at = some at }) ns)
  unfolding update_where is_unread_of
  left_unread [] = tt
  left_unread (n ∷ ns) = ground (arith, left_unread ns)

-- Reading everything at a time answers how many notifications became read and how many are left, which
-- together are the unread ones of before; those that are left are of a later activity.
pub reading_splits :
    (user : String) (at : ℕ) (s : Inbox)
    → let (r, s') = mark_all_read user at at s in
      (mark_all_notifications_read user at s ≡ (ok r, s'))
      × (r.updated_count + r.unread_count ≡ count_unread user s.notifications)
      × (r.unread_count ≡ count_unread user s'.notifications)
      × All (λ n. is_unread_of user n ≡ true → at < n.activity_at) s'.notifications
unfolding mark_all_notifications_read mark_all_read
reading_splits user at s =
    (refl, counts_split user at at s.notifications, refl, left_unread user at at s.notifications)

none_expected :
    (i : MarkReadInput) (at : ℕ) (ns : List Notification)
    → All (λ m. m.id ≢ i.notification_id) ns
    → any (is_expected i at) ns ≡ false
none_expected i at ns other = elim (Bool-cases (any (is_expected i at) ns)) [
  | inl hit ↦ absurd (cc (any_expected-any_own i at ns hit, absent i ns other))
  | inr miss ↦ miss
]

-- The row of an id stands once, so its activity decides.
any_expected-own :
    (i : MarkReadInput) (at : ℕ) (ns : List Notification) {n : Notification}
    → Distinct ns
    → find (is_own i) ns ≡ some n
    → any (is_expected i at) ns ≡ (n.activity_at == at)
unfolding Distinct
any_expected-own i at [] distinct found = cc found
any_expected-own i at (m ∷ ns) {n} distinct found = elim (Bool-cases (is_own i m)) [
  | inl own ↦
      let e : m ≡ n = ground arith in
      let same_id : m.id ≡ i.notification_id = ground (arith, eq_iff m.id i.notification_id) in
      let others = none_expected i at ns (rw (same_id) at distinct.0) in
      let active : m.activity_at ≡ n.activity_at = ap (λ (x : Notification). x.activity_at) e in
      ground arith
  | inr foreign ↦
      let rest = any_expected-own i at ns {n = n} distinct.1 (ground arith) in ground arith
]

-- A notification that had an activity which the reader has not seen stays as it is, and the reader is
-- told of the conflict.
pub unseen_conflicts :
    (i : MarkReadInput) (s : Inbox) (seen : ℕ) {n : Notification}
    → Distinct s.notifications
    → i.expected_activity_at ≡ some seen
    → find (is_own i) s.notifications ≡ some n
    → n.activity_at ≢ seen
    → mark_notification_read i s ≡ (err notification_read_conflict, s)
unfolding mark_notification_read mark_read mark_expected
unseen_conflicts i s seen {n} distinct expects found later =
    let own = (find-any (is_own i) s.notifications found).1 in
    let miss : any (is_expected i seen) s.notifications ≡ false =
      any_expected-own i seen s.notifications distinct found ∙ ground arith in
    rw (expects, miss, own) refl
