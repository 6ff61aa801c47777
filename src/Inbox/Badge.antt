-- ===== src/Inbox/Badge.antt =====
-- The unread counts that the users are told.
-- Code: apps/api/src/modules/notifications/infrastructure/repositories/prisma-notification.repository.ts
use elonew.Base.{
  ℕ, String, Bool, true, List, [], ◌∷◌, none, some, find, any, or_else, All, All-map, All-of, same,
  inl, inr, ◌≡◌, ◌≢◌, refl, sym, ◌∙◌, arith, eq_iff, Bool-cases, Option-cases, if◌then◌else◌,
}
use mathlib.Core.Path.{subst}
use elonew.Inbox.Store.{
  Notification, NotificationEvent, updated, read_all, Inbox, MarkReadInput, MarkReadResult, marked,
  changed, missing, has_id, is_own, is_expected, mark_expected, mark_any, told_of,
  write_updated_event, is_read_by, is_unread_of, count_unread, update_where, upsert, upserted_row,
  upsert_rows, apply_mark_read, mark_read, mark_all_read,
}
use elonew.Inbox.Rows.{
  Distinct, OwnedBy, count_unread-update_where, update_where-All, update_where-Distinct,
  upsert_rows-Distinct, count_unread-upsert, find-update_where, any_own-any_id,
  any_expected-any_own, upserted_row-recipient, any_own-OwnedBy, find-any, find-OwnedBy,
}

abbrev unread_in : NotificationEvent → ℕ
unread_in (updated n unread) = unread
unread_in (read_all at cutoff unread) = unread

-- The count in the last event for a user, 0 without one.
unfoldable pub told : String → List (String × NotificationEvent) → ℕ
told user [] = 0
told user ((j, e) ∷ es) = if same j user then unread_in e else told user es

-- Every user has been told their unread count.
pub record IsTold (s : Inbox) : Type 0 where
  pub distinct : Distinct s.notifications
  pub counted : (user : String) → told user s.outbox ≡ count_unread user s.notifications

-- An event with the count of its user's unread rows keeps the users told, when the rows of the others
-- are read as before.
write-IsTold :
    (user : String) (e : NotificationEvent) (ns : List Notification) (s : Inbox)
    → Distinct ns
    → unread_in e ≡ count_unread user ns
    → ((other : String) → user ≢ other → count_unread other ns ≡ count_unread other s.notifications)
    → IsTold s
    → IsTold (record { notifications = ns; outbox = (user, e) ∷ s.outbox })
unfolding told
write-IsTold user e ns s distinct counts others t = record {
  distinct = distinct;
  counted = λ j. elim (Bool-cases (same user j)) [
    | inl own ↦ rw own (rw ((eq_iff user j).0 own) at counts)
    | inr other ↦ rw other (t.counted j ∙ sym (others j (λ e. cc (other, (eq_iff user j).1 e))))
  ];
}

pub upsert-IsTold :
    (fresh : Notification) (s : Inbox)
    → All (λ m. m.id ≢ fresh.id) s.notifications
    → IsTold s
    → IsTold (upsert fresh s).1
unfolding upsert
upsert-IsTold fresh s new t =
    write-IsTold (upserted_row fresh s.notifications).recipient_id _
      (upsert_rows fresh s.notifications) s
      (upsert_rows-Distinct fresh s.notifications new t.distinct) refl
      (λ j ne.
        count_unread-upsert j fresh s.notifications
          (λ e. ne (upserted_row-recipient fresh s.notifications ∙ e)))
      t

-- A write to rows of one user's ids leaves the others' counts.
others_keep :
    (id user : String) (p : Notification → Bool) (f : Notification → Notification)
    (ns : List Notification)
    → ((n : Notification) → p n ≡ true → n.id ≡ id)
    → ((n : Notification) → (f n).recipient_id ≡ n.recipient_id)
    → OwnedBy id user ns
    → (other : String) → user ≢ other
    → count_unread other (update_where p f ns) ≡ count_unread other ns
unfolding is_unread_of
others_keep id user p f ns at keeps owned other ne = count_unread-update_where other p f ns (
    All-map
      (λ n own hit.
        let e : n.recipient_id ≡ user = own (at n hit) in
        ground (arith, keeps n, eq_iff user other))
      ns owned)

-- What `applyMarkRead` does to the rows, by its answer.
abbrev Marks : List Notification → MarkReadResult → List Notification → Type 0
Marks ns (marked n) ns' =
    Distinct ns'
    × ((other : String) → n.recipient_id ≢ other → count_unread other ns' ≡ count_unread other ns)
Marks ns changed ns' = ns' ≡ ns
Marks ns missing ns' = ns' ≡ ns

-- A write to rows of an id that `i` owns, and the row of that id afterwards.
marked-Marks :
    (i : MarkReadInput) (p : Notification → Bool) (f : Notification → Notification)
    (ns : List Notification)
    → ((n : Notification) → p n ≡ true → n.id ≡ i.notification_id)
    → ((n : Notification) → (f n).recipient_id ≡ n.recipient_id)
    → ((n : Notification) → (f n).id ≡ n.id)
    → Distinct ns
    → any (is_own i) ns ≡ true
    → (m : Notification) × (find (has_id i.notification_id) (update_where p f ns) ≡ some m)
      × Marks ns (marked m) (update_where p f ns)
marked-Marks i p f ns at keeps ids distinct own =
    let (m, found) = find-update_where i.notification_id p f ns ids (any_own-any_id i ns own) in
    let owned = any_own-OwnedBy i ns distinct own in
    let owned' =
      update_where-All (λ n. n.id ≡ i.notification_id → n.recipient_id ≡ i.recipient_id) p f ns
        (λ n own_n e. keeps n ∙ own_n (sym (ids n) ∙ e)) owned in
    let owner : m.recipient_id ≡ i.recipient_id =
      find-OwnedBy i.notification_id i.recipient_id (update_where p f ns) owned' found in
    (
      m,
      found,
      (
        update_where-Distinct p f ns ids distinct,
        λ other ne.
            others_keep i.notification_id i.recipient_id p f ns at keeps owned other
              (λ e. ne (owner ∙ e)),
      ),
    )

mark_expected-Marks :
    (i : MarkReadInput) (at : ℕ) (ns : List Notification)
    → Distinct ns
    → Marks ns (mark_expected i at ns).0 (mark_expected i at ns).1
unfolding mark_expected
mark_expected-Marks i at ns distinct = elim (Bool-cases (any (is_expected i at) ns)) [
  | inl hit ↦
      let (m, found, marks) =
        marked-Marks i (is_expected i at) (λ n. record n { read_at = some i.read_at }) ns
          (λ n own. ground (arith, eq_iff n.id i.notification_id)) (λ n. refl) (λ n. refl) distinct
          (any_expected-any_own i at ns hit) in
      rw (hit, found) marks
  | inr none_hit ↦ elim (Bool-cases (any (is_own i) ns)) [
    | inl own ↦ rw (none_hit, own) refl
    | inr foreign ↦ rw (none_hit, foreign) refl
  ]
]

mark_any-none :
    (i : MarkReadInput) (ns : List Notification)
    → find (is_own i) ns ≡ none
    → mark_any i ns ≡ (missing, ns)
unfolding mark_any
mark_any-none i ns gone = rw (mark_any, gone) refl

mark_any-some :
    (i : MarkReadInput) (ns : List Notification) {n m : Notification}
    → find (is_own i) ns ≡ some n
    → find (has_id n.id) (
        update_where
          (has_id n.id)
          (λ x. record x { read_at = some (or_else n.read_at i.read_at) })
          ns)
      ≡ some m
    → mark_any i ns ≡ (
      marked m,
      update_where
          (has_id n.id)
          (λ x. record x { read_at = some (or_else n.read_at i.read_at) })
          ns,
    )
unfolding mark_any
mark_any-some i ns found after = rw (mark_any, found, after) refl

mark_any-Marks :
    (i : MarkReadInput) (ns : List Notification)
    → Distinct ns
    → Marks ns (mark_any i ns).0 (mark_any i ns).1
mark_any-Marks i ns distinct = elim (Option-cases (find (is_own i) ns)) [
  | inl gone ↦ subst (λ r. Marks ns r.0 r.1) (sym (mark_any-none i ns gone)) refl
  | inr (n, found_n) ↦
      let (own, any_own) = find-any (is_own i) ns found_n in
      let e : n.id ≡ i.notification_id = ground (arith, eq_iff n.id i.notification_id) in
      let (m, found, marks) =
        marked-Marks i (has_id n.id)
          (λ m. record m { read_at = some (or_else n.read_at i.read_at) }) ns
          (λ m hit. (eq_iff m.id n.id).0 hit ∙ e) (λ m. refl) (λ m. refl) distinct any_own in
      subst (λ r. Marks ns r.0 r.1) (sym (mark_any-some i ns found_n (rw (← e) at found))) marks
]

apply_mark_read-Marks :
    (i : MarkReadInput) (ns : List Notification)
    → Distinct ns
    → Marks ns (apply_mark_read i ns).0 (apply_mark_read i ns).1
unfolding apply_mark_read
apply_mark_read-Marks i ns distinct = elim (Option-cases i.expected_activity_at) [
  | inl no_activity ↦ rw no_activity (mark_any-Marks i ns distinct)
  | inr (at, e) ↦ rw e (mark_expected-Marks i at ns distinct)
]

told_of-IsTold :
    (r : MarkReadResult) (ns : List Notification) (s : Inbox)
    → Marks s.notifications r ns
    → IsTold s
    → IsTold (told_of r (record s { notifications = ns }))
unfolding write_updated_event
told_of-IsTold (marked n) ns s (distinct, others) t =
    write-IsTold n.recipient_id _ ns s distinct refl others t
told_of-IsTold changed ns s same_rows t = rw (same_rows) t
told_of-IsTold missing ns s same_rows t = rw (same_rows) t

pub mark_read-IsTold : (i : MarkReadInput) (s : Inbox) → IsTold s → IsTold (mark_read i s).1
unfolding mark_read
mark_read-IsTold i s t =
    told_of-IsTold (apply_mark_read i s.notifications).0 (apply_mark_read i s.notifications).1 s
      (apply_mark_read-Marks i s.notifications t.distinct) t

pub mark_all_read-IsTold :
    (user : String) (at cutoff : ℕ) (s : Inbox)
    → IsTold s
    → IsTold (mark_all_read user at cutoff s).1
unfolding mark_all_read is_unread_of
mark_all_read-IsTold user at cutoff s t =
    write-IsTold user _ _ s
      (update_where-Distinct (is_read_by user cutoff) (λ n. record n { read_at = some at })
        s.notifications (λ n. refl) t.distinct)
      refl
      (λ j ne.
        count_unread-update_where j (is_read_by user cutoff) (λ n. record n { read_at = some at })
          s.notifications
          (All-of (λ n hit. ground (arith, eq_iff n.recipient_id user, eq_iff n.recipient_id j))
            s.notifications))
      t
