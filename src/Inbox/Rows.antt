-- ===== src/Inbox/Rows.antt =====
-- What the writes of the notifications do to a row and to the number of unread ones.
-- Code: apps/api/src/modules/notifications/infrastructure/repositories/prisma-notification.repository.ts
use elonew.Base.{
  ℕ, String, Bool, true, false, List, [], ◌∷◌, some, find, any, All, All-map, inl, inr, ◌≡◌, ◌≢◌,
  refl, sym, ap, ◌∙◌, arith, eq_iff, Bool-cases,
}
use elonew.Inbox.Store.{
  Notification, MarkReadInput, is_own, is_expected, has_id, has_key, is_unread_of, count_unread,
  update_where, upsert_rows, upserted_row,
}

-- No two notifications have the same id.
unfoldable pub Distinct : List Notification → Type 0
Distinct [] = Unit
Distinct (n ∷ ns) = All (λ m. m.id ≢ n.id) ns × Distinct ns

-- All rows of the id are those of one user.
abbrev pub OwnedBy : String → String → List Notification → Type 0
OwnedBy id user ns = All (λ n. n.id ≡ id → n.recipient_id ≡ user) ns

-- A write that changes no row of a user leaves the user's unread count.
pub count_unread-update_where :
    (j : String) (p : Notification → Bool) (f : Notification → Notification)
    (ns : List Notification)
    → All (λ n. p n ≡ true → is_unread_of j (f n) ≡ is_unread_of j n) ns
    → count_unread j (update_where p f ns) ≡ count_unread j ns
unfolding count_unread update_where
count_unread-update_where j p f [] same_unread = refl
count_unread-update_where j p f (n ∷ ns) same_unread = elim (Bool-cases (p n)) [
  | inl hit ↦ rw (hit, same_unread.0 hit, count_unread-update_where j p f ns same_unread.1) refl
  | inr miss ↦ rw (miss, count_unread-update_where j p f ns same_unread.1) refl
]

pub update_where-All :
    (P : Notification → Type 0) (p : Notification → Bool) (f : Notification → Notification)
    (ns : List Notification)
    → ((n : Notification) → P n → P (f n))
    → All P ns
    → All P (update_where p f ns)
unfolding update_where
update_where-All P p f [] keeps all = tt
update_where-All P p f (n ∷ ns) keeps all = elim (Bool-cases (p n)) [
  | inl hit ↦ rw hit (keeps n all.0, update_where-All P p f ns keeps all.1)
  | inr miss ↦ rw miss (all.0, update_where-All P p f ns keeps all.1)
]

pub update_where-Distinct :
    (p : Notification → Bool) (f : Notification → Notification) (ns : List Notification)
    → ((n : Notification) → (f n).id ≡ n.id)
    → Distinct ns
    → Distinct (update_where p f ns)
unfolding Distinct update_where
update_where-Distinct p f [] keeps h = tt
update_where-Distinct p f (n ∷ ns) keeps h = elim (Bool-cases (p n)) [
  | inl hit ↦
      rw (hit, keeps n)
        (
          update_where-All (λ m. m.id ≢ n.id) p f ns (λ m ne. rw keeps ne) h.0,
          update_where-Distinct p f ns keeps h.1,
        )
  | inr miss ↦ rw miss (
    update_where-All (λ m. m.id ≢ n.id) p f ns (λ m ne. rw keeps ne) h.0,
    update_where-Distinct p f ns keeps h.1,
  )
]

upsert_rows-All :
    (id : String) (fresh : Notification) (ns : List Notification)
    → fresh.id ≢ id
    → All (λ m. m.id ≢ id) ns
    → All (λ m. m.id ≢ id) (upsert_rows fresh ns)
unfolding upsert_rows
upsert_rows-All id fresh [] new all = (new, tt)
upsert_rows-All id fresh (n ∷ ns) new all = elim (Bool-cases (has_key fresh n)) [
  | inl hit ↦ rw hit all
  | inr miss ↦ rw miss (all.0, upsert_rows-All id fresh ns new all.1)
]

pub upsert_rows-Distinct :
    (fresh : Notification) (ns : List Notification)
    → All (λ m. m.id ≢ fresh.id) ns
    → Distinct ns
    → Distinct (upsert_rows fresh ns)
unfolding Distinct upsert_rows
upsert_rows-Distinct fresh [] new h = (tt, tt)
upsert_rows-Distinct fresh (n ∷ ns) new h = elim (Bool-cases (has_key fresh n)) [
  | inl hit ↦ rw hit h
  | inr miss ↦ rw miss (
    upsert_rows-All n.id fresh ns (λ e. new.0 (sym e)) h.0,
    upsert_rows-Distinct fresh ns new.1 h.1,
  )
]

pub count_unread-upsert :
    (j : String) (fresh : Notification) (ns : List Notification)
    → fresh.recipient_id ≢ j
    → count_unread j (upsert_rows fresh ns) ≡ count_unread j ns
unfolding count_unread upsert_rows is_unread_of
count_unread-upsert j fresh [] other = ground (arith, eq_iff fresh.recipient_id j)
count_unread-upsert j fresh (n ∷ ns) other = ground (
  arith,
  eq_iff fresh.recipient_id j,
  eq_iff n.recipient_id fresh.recipient_id,
  count_unread-upsert j fresh ns,
)

pub upserted_row-recipient :
    (fresh : Notification) (ns : List Notification)
    → (upserted_row fresh ns).recipient_id ≡ fresh.recipient_id
unfolding upserted_row
upserted_row-recipient fresh [] = refl
upserted_row-recipient fresh (n ∷ ns) =
    ground (arith, eq_iff n.recipient_id fresh.recipient_id, upserted_row-recipient fresh ns)

pub absent :
    (i : MarkReadInput) (ns : List Notification)
    → All (λ m. m.id ≢ i.notification_id) ns
    → any (is_own i) ns ≡ false
absent i [] all = refl
absent i (n ∷ ns) all = ground (arith, eq_iff n.id i.notification_id, absent i ns)

-- Ids do not occur twice, so the user who owns a row of an id owns all.
pub any_own-OwnedBy :
    (i : MarkReadInput) (ns : List Notification)
    → Distinct ns
    → any (is_own i) ns ≡ true
    → OwnedBy i.notification_id i.recipient_id ns
unfolding Distinct
any_own-OwnedBy i [] h own = tt
any_own-OwnedBy i (n ∷ ns) h own = elim (Bool-cases (is_own i n)) [
  | inl at ↦ (
    λ e. ground (arith, eq_iff n.recipient_id i.recipient_id),
    All-map (λ m ne e. absurd (ne (e ∙ sym (ground (arith, eq_iff n.id i.notification_id))))) ns
        h.0,
  )
  | inr other ↦
      (let rest : any (is_own i) ns ≡ true = rw other at own in
        (λ e. absurd (cc (rest, absent i ns (rw e at h.0))), any_own-OwnedBy i ns h.1 rest))
]

pub find-any :
    (p : Notification → Bool) (ns : List Notification) {n : Notification}
    → find p ns ≡ some n
    → (p n ≡ true) × (any p ns ≡ true)
find-any p [] found = cc found
find-any p (m ∷ ns) {n} found = elim (Bool-cases (p m)) [
  | inl hit ↦ (let e : m ≡ n = ground arith in (rw (← e) hit, ground arith))
  | inr miss ↦ (let rest = find-any p ns {n = n} (ground arith) in (rest.0, rw miss rest.1))
]

pub find-OwnedBy :
    (id user : String) (ns : List Notification) {m : Notification}
    → OwnedBy id user ns
    → find (has_id id) ns ≡ some m
    → m.recipient_id ≡ user
find-OwnedBy id user [] owned found = cc found
find-OwnedBy id user (n ∷ ns) {m} owned found = elim (Bool-cases (has_id id n)) [
  | inl hit ↦
      let e : n ≡ m = ground arith in
      sym (ap (λ (x : Notification). x.recipient_id) e) ∙ owned.0 ((eq_iff n.id id).0 hit)
  | inr miss ↦ find-OwnedBy id user ns {m = m} owned.1 (ground arith)
]

-- A row of the id is there after a write that keeps the ids.
pub find-update_where :
    (id : String) (p : Notification → Bool) (f : Notification → Notification)
    (ns : List Notification)
    → ((n : Notification) → (f n).id ≡ n.id)
    → any (has_id id) ns ≡ true
    → (m : Notification) × (find (has_id id) (update_where p f ns) ≡ some m)
unfolding update_where
find-update_where id p f [] keeps h = cc h
find-update_where id p f (n ∷ ns) keeps h = elim (Bool-cases (has_id id n)) [
  | inl hit ↦ elim (Bool-cases (p n)) [
    | inl yes_p ↦ (f n, rw (yes_p, keeps n, hit) refl)
    | inr no_p ↦ (n, rw (no_p, hit) refl)
  ]
  | inr miss ↦
      let (m, found) = find-update_where id p f ns keeps (rw miss at h) in
      (
        m,
        elim (Bool-cases (p n)) [
          | inl yes_p ↦ rw (yes_p, keeps n, miss) found
          | inr no_p ↦ rw (no_p, miss) found
        ],
      )
]

pub any_own-any_id :
    (i : MarkReadInput) (ns : List Notification)
    → any (is_own i) ns ≡ true
    → any (has_id i.notification_id) ns ≡ true
any_own-any_id i [] h = cc h
any_own-any_id i (n ∷ ns) h = ground (arith, any_own-any_id i ns)

pub any_expected-any_own :
    (i : MarkReadInput) (at : ℕ) (ns : List Notification)
    → any (is_expected i at) ns ≡ true
    → any (is_own i) ns ≡ true
any_expected-any_own i at [] h = cc h
any_expected-any_own i at (n ∷ ns) h = ground (arith, any_expected-any_own i at ns)
