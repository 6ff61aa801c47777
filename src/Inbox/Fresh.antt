-- ===== src/Inbox/Fresh.antt =====
-- A page that applies the event of a message shows what the server would list.
-- Code: apps/web/src/modules/notifications/presentation/notification-live-state.ts,
-- apps/api/src/modules/notifications/infrastructure/repositories/prisma-notification.repository.ts
use elonew.Base.{
  ℕ, ◌≤◌, String, Bool, true, false, List, [], ◌∷◌, ◌++◌, All, All-map, same, inl, inr, ◌≡◌, ◌≢◌,
  refl, sym, ap, ◌∙◌, arith, eq_iff, eq_refl, Bool-cases, none,
}
use mathlib.Core.List.{append-nil, append_assoc}
use elonew.Inbox.Store.{
  Notification, updated, Inbox, has_id, has_key, upsert_rows, upserted_row, upsert, count_unread,
  write_updated_event,
}
use elonew.Inbox.UseCases.{before, sort_by_activity, take, of_recipient, list_page}
use elonew.Inbox.Live.{put_item, set_items, apply_notification_updated}
use elonew.Inbox.Rows.{Distinct, upserted_row-recipient}
use elonew.Inbox.Sorted.{IsIdOrder, All-sort, sort-Distinct, sort-Sorted, sort-id}
use elonew.Inbox.Followed.{sort-put, take-insert, take-take-suc, take-Distinct, take-Sorted}

-- The map of items of different ids lists them in their order.
All-end :
    (P : Notification → Type 0) (n : Notification) (ms ns : List Notification)
    → All P (ms ++ n ∷ ns)
    → P n
All-end P n [] ns all = all.0
All-end P n (m ∷ ms) ns all = All-end P n ms ns all.1

put-end :
    (n : Notification) (ms ns : List Notification)
    → Distinct (ms ++ n ∷ ns)
    → put_item n ms ≡ ms ++ n ∷ []
unfolding put_item Distinct
put-end n [] ns h = refl
put-end n (m ∷ ms) ns h =
    let differ : n.id ≢ m.id = All-end (λ x. x.id ≢ m.id) n ms ns h.0 in
    let miss : has_id n.id m ≡ false = ground (arith, eq_iff m.id n.id) in
    rw miss (ap (λ r. m ∷ r) (put-end n ms ns h.1))

set_items-append : (ns ms : List Notification) → Distinct (ms ++ ns) → set_items ns ms ≡ ms ++ ns
unfolding set_items
set_items-append [] ms h = sym (append-nil ms)
set_items-append (n ∷ ns) ms h = rw (put-end n ms ns h) (
    set_items-append ns (ms ++ n ∷ []) (rw (append_assoc ms (n ∷ []) ns) h)
    ∙ append_assoc ms (n ∷ []) ns)

of_recipient-All :
    (P : Notification → Type 0) (user : String) (ns : List Notification)
    → All P ns
    → All P (of_recipient user ns)
unfolding of_recipient
of_recipient-All P user [] all = tt
of_recipient-All P user (n ∷ ns) all = elim (Bool-cases (same n.recipient_id user)) [
  | inl own ↦ rw own (all.0, of_recipient-All P user ns all.1)
  | inr other ↦ rw other (of_recipient-All P user ns all.1)
]

of_recipient-Distinct :
    (user : String) (ns : List Notification) → Distinct ns → Distinct (of_recipient user ns)
unfolding of_recipient Distinct
of_recipient-Distinct user [] h = tt
of_recipient-Distinct user (n ∷ ns) h = elim (Bool-cases (same n.recipient_id user)) [
  | inl own ↦
      rw own (of_recipient-All (λ x. x.id ≢ n.id) user ns h.0, of_recipient-Distinct user ns h.1)
  | inr other ↦ rw other (of_recipient-Distinct user ns h.1)
]

-- The id of the written row is the new one, or one of the rows'.
upserted_row-differs :
    (fresh : Notification) (id : String) (ns : List Notification)
    → fresh.id ≢ id
    → All (λ x. x.id ≢ id) ns
    → (upserted_row fresh ns).id ≢ id
unfolding upserted_row
upserted_row-differs fresh id [] new all = new
upserted_row-differs fresh id (n ∷ ns) new all = elim (Bool-cases (has_key fresh n)) [
  | inl hit ↦ rw hit all.0
  | inr miss ↦ rw miss (upserted_row-differs fresh id ns new all.1)
]

upserted_row-activity :
    (fresh : Notification) (ns : List Notification)
    → (upserted_row fresh ns).activity_at ≡ fresh.activity_at
unfolding upserted_row
upserted_row-activity fresh [] = refl
upserted_row-activity fresh (n ∷ ns) = ground (arith, upserted_row-activity fresh ns)

-- Seen by its recipient, an upsert puts the written row under its id.
upsert-put :
    (fresh : Notification) (ns : List Notification)
    → Distinct ns
    → All (λ x. x.id ≢ fresh.id) ns
    → of_recipient fresh.recipient_id (upsert_rows fresh ns)
      ≡ put_item (upserted_row fresh ns) (of_recipient fresh.recipient_id ns)
unfolding upsert_rows upserted_row of_recipient put_item Distinct
upsert-put fresh [] h new = rw (eq_refl fresh.recipient_id) refl
upsert-put fresh (n ∷ ns) h new = elim (Bool-cases (has_key fresh n)) [
  | inl hit ↦
      let own : same n.recipient_id fresh.recipient_id ≡ true = ground arith in
      rw (hit, own, eq_refl n.id) refl
  | inr miss ↦
      let differs : (upserted_row fresh ns).id ≢ n.id =
        upserted_row-differs fresh n.id ns (λ e. new.0 (sym e)) h.0 in
      let apart : has_id (upserted_row fresh ns).id n ≡ false =
        ground (arith, eq_iff n.id (upserted_row fresh ns).id) in
      elim (Bool-cases (same n.recipient_id fresh.recipient_id)) [
        | inl own ↦ rw (miss, own, apart) (ap (λ r. n ∷ r) (upsert-put fresh ns h.1 new.1))
        | inr other ↦ rw (miss, other) (upsert-put fresh ns h.1 new.1)
      ]
]

module _ (id_after : String → String → Bool) (law : IsIdOrder id_after) where
  -- The list that shows the first rows follows a row that is written and not moved down.
  live-items :
      (k : ℕ) (n : Notification) (ms : List Notification)
      → Distinct ms
      → All (λ m. m.id ≡ n.id → before id_after m n ≡ false) ms
      → take k (
          sort_by_activity id_after
            (put_item n (set_items (take k (sort_by_activity id_after ms)) [])))
        ≡ take k (sort_by_activity id_after (put_item n ms))
  live-items k n ms h later =
      let sorted = sort_by_activity id_after ms in
      let h_sorted = sort-Distinct id_after ms h in
      let s = sort-Sorted id_after law ms h in
      let shown = take-Distinct k sorted h_sorted in
      rw
        (
          set_items-append (take k sorted) [] shown,
          sort-put id_after law n (take k sorted) shown,
          sort-id id_after law (take k sorted) (take-Sorted id_after k sorted s),
          sort-put id_after law n ms h,
        )
        (take-insert id_after law k n sorted s
          (All-sort id_after (λ m. m.id ≡ n.id → before id_after m n ≡ false) ms later))

  module _ (rows_after : String → List Notification → List Notification) where
    -- A page that shows the first ten notifications of a user, and applies the event that a message
    -- writes to the outbox, shows what the server would list then, with its unread count. Ids are
    -- compared by one strict total order in both places and are not taken twice, and no notification has
    -- an activity after the message.
    pub live_is_fresh :
        (fresh : Notification) (s : Inbox)
        → Distinct s.notifications
        → All (λ m. m.id ≢ fresh.id) s.notifications
        → All (λ m. m.activity_at ≤ fresh.activity_at) s.notifications
        → let user = fresh.recipient_id in
          let (n, s') = upsert fresh s in
          let unread = count_unread user s'.notifications in
          let live =
            apply_notification_updated id_after
              (list_page id_after rows_after user 10 none s)
              n
              unread in
          let listed = list_page id_after rows_after user 10 none s' in
          (s'.outbox ≡ (user, updated n unread) ∷ s.outbox)
          × (live.items ≡ listed.items)
          × (live.unread_count ≡ listed.unread_count)
    unfolding apply_notification_updated list_page upsert write_updated_event
    live_is_fresh fresh s h new past =
        let user = fresh.recipient_id in
        let n = upserted_row fresh s.notifications in
        let own = of_recipient user s.notifications in
        let later =
          All-map
            (λ m at e. ground (arith, upserted_row-activity fresh s.notifications, law.irrefl n.id))
            own
            (of_recipient-All (λ m. m.activity_at ≤ fresh.activity_at) user s.notifications past) in
        (
          rw (upserted_row-recipient fresh s.notifications) refl,
          rw
              (
                take-take-suc 10 (sort_by_activity id_after own),
                take-take-suc 10 (
                    sort_by_activity id_after
                      (of_recipient user (upsert_rows fresh s.notifications))),
                upsert-put fresh s.notifications h new,
              )
              (live-items 10 n own (of_recipient-Distinct user s.notifications h) later),
          refl,
        )
