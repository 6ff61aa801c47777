-- ===== src/Outbox/Batch.antt =====
-- What a fetched batch consists of, and what dispatching it does to the rows.
-- Code: apps/api/src/common/outbox
use elonew.Base.{
  ℕ, zero, suc, true, List, [], ◌∷◌, none, some, All, inl, inr, ◌≡◌, ◌≢◌, sym, arith, eq_iff, leb,
  Bool-cases, Dict, lookup,
}
use elonew.Outbox.Store.{
  OutboxEvent, is_due, due_events, insert_by_creation, sort_by_creation, take, fetch_pending,
}

-- No event occurs twice.
unfoldable pub Distinct : List OutboxEvent → Type 0
Distinct [] = Unit
Distinct (e ∷ es) = All (λ f. f.id ≢ e.id) es × Distinct es

All-insert_by :
    (P : OutboxEvent → Type 0) (e : OutboxEvent) (es : List OutboxEvent)
    → P e
    → All P es
    → All P (insert_by_creation e es)
unfolding insert_by_creation
All-insert_by P e [] p all = (p, tt)
All-insert_by P e (f ∷ es) p all = elim (Bool-cases (leb e.created_at f.created_at)) [
  | inl before ↦ rw before (p, all)
  | inr after ↦ rw after (all.0, All-insert_by P e es p all.1)
]

Distinct-insert_by :
    (e : OutboxEvent) (es : List OutboxEvent)
    → All (λ f. f.id ≢ e.id) es
    → Distinct es
    → Distinct (insert_by_creation e es)
unfolding insert_by_creation Distinct
Distinct-insert_by e [] fresh h = (tt, tt)
Distinct-insert_by e (f ∷ es) fresh h = elim (Bool-cases (leb e.created_at f.created_at)) [
  | inl before ↦ rw before (fresh, h)
  | inr after ↦ rw after (
    All-insert_by (λ g. g.id ≢ f.id) e es (λ x. fresh.0 (sym x)) h.0,
    Distinct-insert_by e es fresh.1 h.1,
  )
]

All-sort :
    (P : OutboxEvent → Type 0) (es : List OutboxEvent) → All P es → All P (sort_by_creation es)
unfolding sort_by_creation
All-sort P [] all = tt
All-sort P (e ∷ es) all = All-insert_by P e (sort_by_creation es) all.0 (All-sort P es all.1)

Distinct-sort : (es : List OutboxEvent) → Distinct es → Distinct (sort_by_creation es)
unfolding sort_by_creation Distinct
Distinct-sort [] h = tt
Distinct-sort (e ∷ es) h =
    Distinct-insert_by e (sort_by_creation es) (All-sort (λ f. f.id ≢ e.id) es h.0)
      (Distinct-sort es h.1)

All-take : (P : OutboxEvent → Type 0) (n : ℕ) (es : List OutboxEvent) → All P es → All P (take n es)
unfolding take
All-take P zero es all = tt
All-take P (suc n) [] all = tt
All-take P (suc n) (e ∷ es) all = (all.0, All-take P n es all.1)

Distinct-take : (n : ℕ) (es : List OutboxEvent) → Distinct es → Distinct (take n es)
unfolding take Distinct
Distinct-take zero es h = tt
Distinct-take (suc n) [] h = tt
Distinct-take (suc n) (e ∷ es) h = (All-take (λ f. f.id ≢ e.id) n es h.0, Distinct-take n es h.1)

-- A table whose rows stand under their ids, once each.
unfoldable pub IsTable : Dict OutboxEvent → Type 0
IsTable [] = Unit
IsTable ((k, e) ∷ d) = (e.id ≡ k) × (lookup k d ≡ none) × IsTable d

All-due :
    (P : OutboxEvent → Type 0) (now : ℕ) (d : Dict OutboxEvent)
    → ((e : OutboxEvent) → lookup e.id d ≡ some e → is_due now e ≡ true → P e)
    → IsTable d
    → All P (due_events now d)
unfolding IsTable due_events lookup
All-due P now [] each h = tt
All-due P now ((k, e) ∷ d) each h =
    let rest = All-due P now d (λ f found is. each f (ground (arith, eq_iff k f.id)) is) h.2 in
    elim (Bool-cases (is_due now e)) [
      | inl due ↦ rw due (each e (ground (arith, eq_iff k e.id)) due, rest)
      | inr wait ↦ rw wait rest
    ]

Distinct-due : (now : ℕ) (d : Dict OutboxEvent) → IsTable d → Distinct (due_events now d)
unfolding IsTable due_events Distinct
Distinct-due now [] h = tt
Distinct-due now ((k, e) ∷ d) h =
    let apart = All-due (λ f. f.id ≢ e.id) now d (λ f found is. ground arith) h.2 in
    ground (arith, apart, Distinct-due now d h.2)

-- A batch is of rows that stand in the table and are due, each once.
unfoldable pub IsBatch : ℕ → Dict OutboxEvent → List OutboxEvent → Type 0
IsBatch now d es = Distinct es × All (λ e. (lookup e.id d ≡ some e) × (is_due now e ≡ true)) es

pub fetch_pending-IsBatch :
    (now limit : ℕ) (d : Dict OutboxEvent) → IsTable d → IsBatch now d (fetch_pending now limit d)
unfolding fetch_pending IsBatch
fetch_pending-IsBatch now limit d h = (
  Distinct-take limit _ (Distinct-sort _ (Distinct-due now d h)),
  All-take _ limit _ (All-sort _ _ (All-due _ now d (λ e found due. (found, due)) h)),
)
