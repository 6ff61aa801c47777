-- ===== src/Inbox/Followed.antt =====
-- A page that applies the events shows what the server would list.
-- Code: apps/web/src/modules/notifications/presentation/notification-live-state.ts,
-- apps/api/src/modules/notifications/infrastructure/repositories/prisma-notification.repository.ts
use elonew.Base.{
  ℕ, zero, suc, String, Bool, true, false, List, [], ◌∷◌, All, All-map, inl, inr, ◌≡◌, ◌≢◌, refl,
  sym, ap, ◌∙◌, arith, eq_iff, Bool-cases,
}
use elonew.Inbox.Store.{Notification, has_id}
use elonew.Inbox.UseCases.{before, insert_by_activity, sort_by_activity, take}
use elonew.Inbox.Live.{put_item}
use elonew.Inbox.Rows.{Distinct}
use elonew.Inbox.Sorted.{
  IsIdOrder, remove, Sorted, insert-front, All-sort, sort-Distinct, remove-gone, remove-All,
  sort-Sorted, insert_comm, remove-insert, before_trans,
}

-- Removing the row of the id right after it was inserted.
remove-insert_own :
    (id_after : String → String → Bool) (id : String) (m : Notification) (ms : List Notification)
    → m.id ≡ id
    → All (λ x. x.id ≢ id) ms
    → remove id (insert_by_activity id_after m ms) ≡ ms
unfolding remove insert_by_activity
remove-insert_own id_after id m [] e gone = rw ((eq_iff m.id id).1 e) refl
remove-insert_own id_after id m (y ∷ ys) e gone =
    let hit = (eq_iff m.id id).1 e in
    let miss : has_id id y ≡ false = ground (arith, eq_iff y.id id) in
    elim (Bool-cases (before id_after y m)) [
      | inl earlier ↦
          rw (earlier, miss) (ap (λ r. y ∷ r) (remove-insert_own id_after id m ys e gone.1))
      | inr later ↦ rw (later, hit) refl
    ]

module _ (id_after : String → String → Bool) (law : IsIdOrder id_after) where
  -- Sorting after a row was put is inserting it into the sorted rest.
  pub sort-put :
      (n : Notification) (ms : List Notification)
      → Distinct ms
      → sort_by_activity id_after (put_item n ms)
        ≡ insert_by_activity id_after n (remove n.id (sort_by_activity id_after ms))
  unfolding sort_by_activity put_item remove Distinct
  sort-put n [] h = refl
  sort-put n (m ∷ ms) h = elim (Bool-cases (has_id n.id m)) [
    | inl hit ↦
        let e : m.id ≡ n.id = (eq_iff m.id n.id).0 hit in
        rw hit (
          ap (λ r. insert_by_activity id_after n r)
            (sym (
              remove-insert_own id_after n.id m (sort_by_activity id_after ms) e
                (All-sort id_after (λ x. x.id ≢ n.id) ms (rw e at h.0)))))
    | inr miss ↦
        let differ : m.id ≢ n.id = λ e. cc (miss, (eq_iff m.id n.id).1 e) in
        let others = All-sort id_after (λ x. x.id ≢ m.id) ms h.0 in
        rw miss (
          ap (λ r. insert_by_activity id_after m r) (sort-put n ms h.1)
          ∙ insert_comm id_after law m n (remove n.id (sort_by_activity id_after ms)) differ
              (remove-All (λ x. x.id ≢ m.id) n.id (sort_by_activity id_after ms) others)
              (remove-gone n.id (sort_by_activity id_after ms) (sort-Distinct id_after ms h.1))
          ∙ ap (λ r. insert_by_activity id_after n r)
              (sym (
                remove-insert id_after law n.id m (sort_by_activity id_after ms) differ
                  (sort-Sorted id_after law ms h.1) others)))
  ]

-- Taking.
pub take-take : (k : ℕ) (ms : List Notification) → take k (take k ms) ≡ take k ms
unfolding take
take-take zero ms = refl
take-take (suc k) [] = refl
take-take (suc k) (m ∷ ms) = ap (λ r. m ∷ r) (take-take k ms)

pub take-take-suc : (k : ℕ) (ms : List Notification) → take k (take (suc k) ms) ≡ take k ms
unfolding take
take-take-suc zero ms = refl
take-take-suc (suc k) [] = refl
take-take-suc (suc k) (m ∷ ms) = ap (λ r. m ∷ r) (take-take-suc k ms)

pub take-All :
    (P : Notification → Type 0) (k : ℕ) (ms : List Notification) → All P ms → All P (take k ms)
unfolding take
take-All P zero ms all = tt
take-All P (suc k) [] all = tt
take-All P (suc k) (m ∷ ms) all = (all.0, take-All P k ms all.1)

pub take-Distinct : (k : ℕ) (ms : List Notification) → Distinct ms → Distinct (take k ms)
unfolding take Distinct
take-Distinct zero ms h = tt
take-Distinct (suc k) [] h = tt
take-Distinct (suc k) (m ∷ ms) h = (take-All (λ x. x.id ≢ m.id) k ms h.0, take-Distinct k ms h.1)

pub take-Sorted :
    (id_after : String → String → Bool) (k : ℕ) (ms : List Notification)
    → Sorted id_after ms
    → Sorted id_after (take k ms)
unfolding take Sorted
take-Sorted id_after zero ms s = tt
take-Sorted id_after (suc k) [] s = tt
take-Sorted id_after (suc k) (m ∷ ms) s =
    (take-All (λ x. before id_after m x ≡ true) k ms s.0, take-Sorted id_after k ms s.1)

take-remove :
    (id : String) (k : ℕ) (ms : List Notification)
    → take k (remove id (take (suc k) ms)) ≡ take k (remove id ms)
unfolding take remove
take-remove id zero ms = refl
take-remove id (suc k) [] = refl
take-remove id (suc k) (m ∷ ms) = elim (Bool-cases (has_id id m)) [
  | inl hit ↦ rw hit (take-take (suc k) ms)
  | inr miss ↦ rw miss (ap (λ r. m ∷ r) (take-remove id k ms))
]

take-below :
    (id : String) (m : Notification) (k : ℕ) (ms : List Notification)
    → take k (m ∷ remove id (take k ms)) ≡ take k (m ∷ remove id ms)
unfolding take
take-below id m zero ms = refl
take-below id m (suc k) ms = ap (λ r. m ∷ r) (take-remove id k ms)

module _ (id_after : String → String → Bool) (law : IsIdOrder id_after) where
  -- The first rows after a row has moved up are known from the first rows before it.
  pub take-insert :
      (k : ℕ) (n : Notification) (ms : List Notification)
      → Sorted id_after ms
      → All (λ m. m.id ≡ n.id → before id_after m n ≡ false) ms
      → take k (insert_by_activity id_after n (remove n.id (take k ms)))
        ≡ take k (insert_by_activity id_after n (remove n.id ms))
  unfolding take remove insert_by_activity Sorted
  take-insert zero n ms s later = refl
  take-insert (suc k) n [] s later = refl
  take-insert (suc k) n (m ∷ ms) s later = elim (Bool-cases (has_id n.id m)) [
    | inl hit ↦
        let not_after : before id_after m n ≡ false = later.0 ((eq_iff m.id n.id).0 hit) in
        let behind : All (λ x. before id_after x n ≡ false) ms =
          All-map
            (λ x after. elim (Bool-cases (before id_after x n)) [
              | inl ahead ↦ absurd (cc (not_after, before_trans id_after law m x n after ahead))
              | inr stays ↦ stays
            ])
            ms s.0 in
        rw
          (
            hit,
            insert-front id_after n ms behind,
            insert-front id_after n (take k ms)
                (take-All (λ x. before id_after x n ≡ false) k ms behind),
          )
          (ap (λ r. n ∷ r) (take-take k ms))
    | inr miss ↦ elim (Bool-cases (before id_after m n)) [
      | inl ahead ↦ rw (miss, ahead) (ap (λ r. m ∷ r) (take-insert k n ms s.1 later.1))
      | inr behind ↦ rw (miss, behind) (ap (λ r. n ∷ r) (take-below n.id m k ms))
    ]
  ]
