-- ===== src/Inbox/Sorted.antt =====
-- The order of the notifications by activity and id.
-- Code: apps/api/src/modules/notifications/infrastructure/repositories/prisma-notification.repository.ts,
-- apps/web/src/modules/notifications/presentation/notification-live-state.ts
use elonew.Base.{
  String, Bool, true, false, List, [], ◌∷◌, All, All-map, inl, inr, ◌≡◌, ◌≢◌, refl, sym, ap, arith,
  eq_iff, Bool-cases, if◌then◌else◌,
}
use elonew.Inbox.Store.{Notification, has_id}
use elonew.Inbox.UseCases.{before, insert_by_activity, sort_by_activity}
use elonew.Inbox.Rows.{Distinct}

-- What is relied on of the comparison of ids: it is a strict total order.
pub record IsIdOrder (id_after : String → String → Bool) : Type 0 where
  pub irrefl : (a : String) → id_after a a ≡ false
  pub trans : (a b c : String) → id_after a b ≡ true → id_after b c ≡ true → id_after a c ≡ true
  pub total : (a b : String) → a ≢ b → id_after a b ≡ false → id_after b a ≡ true

-- The list without the first row of the id.
unfoldable pub remove : String → List Notification → List Notification
remove id [] = []
remove id (m ∷ ms) = if has_id id m then ms else m ∷ remove id ms

module _ (id_after : String → String → Bool) (law : IsIdOrder id_after) where
  pub before_trans :
      (a b c : Notification)
      → before id_after a b ≡ true
      → before id_after b c ≡ true
      → before id_after a c ≡ true
  before_trans a b c p q = ground (arith, law.trans a.id b.id c.id)

  pub before-total :
      (a b : Notification) → a.id ≢ b.id → before id_after a b ≡ false → before id_after b a ≡ true
  before-total a b differ p = ground (arith, law.total a.id b.id)

  pub before-asym : (a b : Notification) → before id_after a b ≡ true → before id_after b a ≡ false
  before-asym a b p = ground (arith, law.trans a.id b.id a.id, law.irrefl a.id)

module _ (id_after : String → String → Bool) where
  -- Every row stands before the rows that follow it.
  unfoldable pub Sorted : List Notification → Type 0
  Sorted [] = Unit
  Sorted (m ∷ ms) = All (λ x. before id_after m x ≡ true) ms × Sorted ms

  pub insert-front :
      (n : Notification) (ms : List Notification)
      → All (λ x. before id_after x n ≡ false) ms
      → insert_by_activity id_after n ms ≡ n ∷ ms
  unfolding insert_by_activity
  insert-front n [] all = refl
  insert-front n (m ∷ ms) all = rw (all.0) refl

  All-insert :
      (P : Notification → Type 0) (n : Notification) (ms : List Notification)
      → P n
      → All P ms
      → All P (insert_by_activity id_after n ms)
  unfolding insert_by_activity
  All-insert P n [] p all = (p, tt)
  All-insert P n (m ∷ ms) p all = elim (Bool-cases (before id_after m n)) [
    | inl earlier ↦ rw earlier (all.0, All-insert P n ms p all.1)
    | inr later ↦ rw later (p, all)
  ]

  pub All-sort :
      (P : Notification → Type 0) (ms : List Notification)
      → All P ms
      → All P (sort_by_activity id_after ms)
  unfolding sort_by_activity
  All-sort P [] all = tt
  All-sort P (m ∷ ms) all =
      All-insert P m (sort_by_activity id_after ms) all.0 (All-sort P ms all.1)

  insert-Distinct :
      (n : Notification) (ms : List Notification)
      → All (λ x. x.id ≢ n.id) ms
      → Distinct ms
      → Distinct (insert_by_activity id_after n ms)
  unfolding insert_by_activity Distinct
  insert-Distinct n [] fresh h = (tt, tt)
  insert-Distinct n (m ∷ ms) fresh h = elim (Bool-cases (before id_after m n)) [
    | inl earlier ↦ rw earlier (
      All-insert (λ x. x.id ≢ m.id) n ms (λ e. fresh.0 (sym e)) h.0,
      insert-Distinct n ms fresh.1 h.1,
    )
    | inr later ↦ rw later (fresh, h)
  ]

  pub sort-Distinct :
      (ms : List Notification) → Distinct ms → Distinct (sort_by_activity id_after ms)
  unfolding sort_by_activity Distinct
  sort-Distinct [] h = tt
  sort-Distinct (m ∷ ms) h =
      insert-Distinct m (sort_by_activity id_after ms) (All-sort (λ x. x.id ≢ m.id) ms h.0)
        (sort-Distinct ms h.1)

pub remove-All :
    (P : Notification → Type 0) (id : String) (ms : List Notification)
    → All P ms
    → All P (remove id ms)
unfolding remove
remove-All P id [] all = tt
remove-All P id (m ∷ ms) all = elim (Bool-cases (has_id id m)) [
  | inl hit ↦ rw hit all.1
  | inr miss ↦ rw miss (all.0, remove-All P id ms all.1)
]

-- The id is gone from a list that had it once.
pub remove-gone :
    (id : String) (ms : List Notification) → Distinct ms → All (λ x. x.id ≢ id) (remove id ms)
unfolding remove Distinct
remove-gone id [] h = tt
remove-gone id (m ∷ ms) h = elim (Bool-cases (has_id id m)) [
  | inl hit ↦ rw (hit, ← ((eq_iff m.id id).0 hit)) h.0
  | inr miss ↦ rw miss ((λ e. cc (miss, (eq_iff m.id id).1 e)), remove-gone id ms h.1)
]

module _ (id_after : String → String → Bool) (law : IsIdOrder id_after) where
  insert-Sorted :
      (n : Notification) (ms : List Notification)
      → All (λ x. x.id ≢ n.id) ms
      → Sorted id_after ms
      → Sorted id_after (insert_by_activity id_after n ms)
  unfolding insert_by_activity Sorted
  insert-Sorted n [] fresh s = (tt, tt)
  insert-Sorted n (m ∷ ms) fresh s = elim (Bool-cases (before id_after m n)) [
    | inl earlier ↦ rw earlier (
      All-insert id_after (λ x. before id_after m x ≡ true) n ms earlier s.0,
      insert-Sorted n ms fresh.1 s.1,
    )
    | inr later ↦
        let first : before id_after n m ≡ true = before-total id_after law m n fresh.0 later in
        rw later
          ((first, All-map (λ x after. before_trans id_after law n m x first after) ms s.0), s)
  ]

  pub sort-Sorted :
      (ms : List Notification) → Distinct ms → Sorted id_after (sort_by_activity id_after ms)
  unfolding sort_by_activity Distinct Sorted
  sort-Sorted [] h = tt
  sort-Sorted (m ∷ ms) h =
      insert-Sorted m (sort_by_activity id_after ms) (All-sort id_after (λ x. x.id ≢ m.id) ms h.0)
        (sort-Sorted ms h.1)

  pub sort-id : (ms : List Notification) → Sorted id_after ms → sort_by_activity id_after ms ≡ ms
  unfolding sort_by_activity Sorted
  sort-id [] s = refl
  sort-id (m ∷ ms) s =
      rw (sort-id ms s.1)
        (insert-front id_after m ms (All-map (λ x. before-asym id_after law m x) ms s.0))

  -- Two rows of different ids may be inserted in either order.
  pub insert_comm :
      (m n : Notification) (zs : List Notification)
      → m.id ≢ n.id
      → All (λ z. z.id ≢ m.id) zs
      → All (λ z. z.id ≢ n.id) zs
      → insert_by_activity id_after m (insert_by_activity id_after n zs)
        ≡ insert_by_activity id_after n (insert_by_activity id_after m zs)
  unfolding insert_by_activity
  insert_comm m n [] differ other_m other_n = elim (Bool-cases (before id_after n m)) [
    | inl first ↦ rw (first, before-asym id_after law n m first) refl
    | inr second ↦ rw (second, before-total id_after law n m (λ e. differ (sym e)) second) refl
  ]
  insert_comm m n (z ∷ zs) differ other_m other_n = elim (Bool-cases (before id_after z m)) [
    | inl z_m ↦ elim (Bool-cases (before id_after z n)) [
      | inl z_n ↦
          rw (z_m, z_n, z_m) (ap (λ r. z ∷ r) (insert_comm m n zs differ other_m.1 other_n.1))
      | inr n_z ↦
          let n_m : before id_after n m ≡ true =
            before_trans id_after law n z m (before-total id_after law z n other_n.0 n_z) z_m in
          rw (z_m, n_z, n_m, z_m) refl
    ]
    | inr m_z ↦ elim (Bool-cases (before id_after z n)) [
      | inl z_n ↦
          let m_n : before id_after m n ≡ true =
            before_trans id_after law m z n (before-total id_after law z m other_m.0 m_z) z_n in
          rw (m_z, z_n, m_n, m_z) refl
      | inr n_z ↦ elim (Bool-cases (before id_after n m)) [
        | inl first ↦ rw (m_z, n_z, first, before-asym id_after law n m first, m_z) refl
        | inr second ↦
            rw (m_z, n_z, second, before-total id_after law n m (λ e. differ (sym e)) second) refl
      ]
    ]
  ]

  -- Removing an id from a sorted list, and inserting another row.
  pub remove-insert :
      (id : String) (m : Notification) (ms : List Notification)
      → m.id ≢ id
      → Sorted id_after ms
      → All (λ x. x.id ≢ m.id) ms
      → remove id (insert_by_activity id_after m ms) ≡ insert_by_activity id_after m (remove id ms)
  unfolding remove insert_by_activity Sorted
  remove-insert id m [] differ s fresh = elim (Bool-cases (has_id id m)) [
    | inl hit ↦ absurd (differ ((eq_iff m.id id).0 hit))
    | inr miss ↦ rw miss refl
  ]
  remove-insert id m (y ∷ ys) differ s fresh =
      let other : has_id id m ≡ false = ground (arith, eq_iff m.id id) in
      elim (Bool-cases (before id_after y m)) [
        | inl earlier ↦ elim (Bool-cases (has_id id y)) [
          | inl hit ↦ rw (earlier, hit) refl
          | inr miss ↦
              rw (earlier, miss, earlier)
                (ap (λ r. y ∷ r) (remove-insert id m ys differ s.1 fresh.1))
        ]
        | inr later ↦
            let first : before id_after m y ≡ true = before-total id_after law y m fresh.0 later in
            elim (Bool-cases (has_id id y)) [
              | inl hit ↦
                  rw (later, other, hit)
                    (sym (
                      insert-front id_after m ys (
                        All-map
                          (λ x after.
                            before-asym id_after law m x
                              (before_trans id_after law m y x first after))
                          ys s.0)))
              | inr miss ↦ rw (later, other, miss, later) refl
            ]
      ]
