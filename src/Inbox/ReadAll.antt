-- ===== src/Inbox/ReadAll.antt =====
-- A page that applies the event of reading everything shows what the server would list.
-- Code: apps/web/src/modules/notifications/presentation/notification-live-state.ts,
-- apps/api/src/modules/notifications/infrastructure/repositories/prisma-notification.repository.ts
use elonew.Base.{
  ℕ, zero, suc, String, Bool, List, [], ◌∷◌, map, inl, inr, ◌≡◌, refl, sym, ap, arith, Bool-cases,
  none, some,
}
use elonew.Inbox.Store.{
  Notification, read_all, Inbox, is_unread_of, is_read_by, update_where, mark_all_read,
}
use elonew.Inbox.UseCases.{
  before, insert_by_activity, sort_by_activity, take, of_recipient, list_page,
}
use elonew.Inbox.Live.{read_in_list, apply_notifications_read_all}
use elonew.Inbox.Followed.{take-take-suc}

module _ (at cutoff : ℕ) where
  own_rows-read :
      (user : String) (ns : List Notification)
      → of_recipient user
          (update_where (is_read_by user cutoff) (λ n. record n { read_at = some at }) ns)
        ≡ map (read_in_list at cutoff) (of_recipient user ns)
  unfolding of_recipient update_where is_unread_of
  own_rows-read user [] = refl
  own_rows-read user (n ∷ ns) = ground (arith, own_rows-read user ns)

  take-map :
      (k : ℕ) (ms : List Notification)
      → take k (map (read_in_list at cutoff) ms) ≡ map (read_in_list at cutoff) (take k ms)
  unfolding take
  take-map zero ms = refl
  take-map (suc k) [] = refl
  take-map (suc k) (m ∷ ms) = ap (λ r. read_in_list at cutoff m ∷ r) (take-map k ms)

  -- Reading a row does not move it.
  insert-map :
      (id_after : String → String → Bool) (n : Notification) (ms : List Notification)
      → insert_by_activity id_after (read_in_list at cutoff n) (map (read_in_list at cutoff) ms)
        ≡ map (read_in_list at cutoff) (insert_by_activity id_after n ms)
  unfolding insert_by_activity
  insert-map id_after n [] = refl
  insert-map id_after n (m ∷ ms) = elim (Bool-cases (before id_after m n)) [
    | inl ahead ↦ rw ahead (ap (λ r. read_in_list at cutoff m ∷ r) (insert-map id_after n ms))
    | inr behind ↦ rw behind refl
  ]

  sort-map :
      (id_after : String → String → Bool) (ms : List Notification)
      → sort_by_activity id_after (map (read_in_list at cutoff) ms)
        ≡ map (read_in_list at cutoff) (sort_by_activity id_after ms)
  unfolding sort_by_activity
  sort-map id_after [] = refl
  sort-map id_after (m ∷ ms) =
      rw (sort-map id_after ms) (insert-map id_after m (sort_by_activity id_after ms))

-- A page that shows the first notifications of a user, and applies the event that is written when the
-- user reads everything, shows what the server would list then, with its unread count.
pub live_reads_all :
    (id_after : String → String → Bool)
    (rows_after : String → List Notification → List Notification) (user : String) (limit at : ℕ)
    (s : Inbox)
    → let (r, s') = mark_all_read user at at s in
      let live =
        apply_notifications_read_all
          (list_page id_after rows_after user limit none s)
          at
          at
          r.unread_count in
      let listed = list_page id_after rows_after user limit none s' in
      (s'.outbox ≡ (user, read_all at at r.unread_count) ∷ s.outbox)
      × (live.items ≡ listed.items)
      × (live.unread_count ≡ listed.unread_count)
unfolding mark_all_read list_page apply_notifications_read_all
live_reads_all id_after rows_after user limit at s =
    let own = of_recipient user s.notifications in
    (
      refl,
      rw
          (
            own_rows-read at at user s.notifications,
            sort-map at at id_after own,
            take-take-suc limit (sort_by_activity id_after own),
            take-take-suc limit (map (read_in_list at at) (sort_by_activity id_after own)),
          )
          (sym (take-map at at limit (sort_by_activity id_after own))),
      refl,
    )
