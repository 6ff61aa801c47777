-- ===== src/Outbox/Store.antt =====
-- apps/api/src/common/outbox/outbox-event.ts, outbox-writer.ts and prisma-outbox.store.ts: the table of
-- events under their ids. The defaults of a new row are those of the schema (`OutboxEvent` in
-- packages/database/prisma/schema.prisma); a payload is its text. Rows created at one time come in the
-- order of the table, which the database leaves open.
use elonew.Base.{
  ℕ, zero, suc, String, Bool, true, false, ◌&&◌, List, [], ◌∷◌, Option, none, some, if◌then◌else◌,
  leb, Dict, lookup, insert,
}

pub data OutboxEventStatus : Type 0 where
  pending published failed : OutboxEventStatus

-- `OutboxEventRecord`
pub record OutboxEvent : Type 0 where
  pub id : String
  pub aggregate_type : String
  pub aggregate_id : String
  pub event_type : String
  pub payload : String
  pub status : OutboxEventStatus
  pub attempts : ℕ
  pub available_at : ℕ
  pub published_at : Option ℕ
  pub last_error : Option String
  pub created_at : ℕ

-- `OutboxEventInput`
pub record OutboxEventInput : Type 0 where
  pub aggregate_type : String
  pub aggregate_id : String
  pub event_type : String
  pub payload : String

-- `OutboxWriter.write`, with the new id and the time of the database.
unfoldable pub write : String → ℕ → OutboxEventInput → Dict OutboxEvent → Dict OutboxEvent
write id now input = insert id (record {
  id = id;
  aggregate_type = input.aggregate_type;
  aggregate_id = input.aggregate_id;
  event_type = input.event_type;
  payload = input.payload;
  status = pending;
  attempts = 0;
  available_at = now;
  published_at = none;
  last_error = none;
  created_at = now;
})

abbrev pub is_pending : OutboxEvent → Bool
is_pending e = elim e.status [ pending ↦ true | published ↦ false | failed ↦ false ]

-- `where: { status: 'PENDING', availableAt: { lte: now } }`
abbrev pub is_due : ℕ → OutboxEvent → Bool
is_due now e = is_pending e && leb e.available_at now

unfoldable pub due_events : ℕ → Dict OutboxEvent → List OutboxEvent
due_events now [] = []
due_events now ((id, e) ∷ d) = if is_due now e then e ∷ due_events now d else due_events now d

-- `orderBy: { createdAt: 'asc' }`
unfoldable pub insert_by_creation : OutboxEvent → List OutboxEvent → List OutboxEvent
insert_by_creation e [] = e ∷ []
insert_by_creation e (f ∷ es) =
    if leb e.created_at f.created_at then e ∷ f ∷ es else f ∷ insert_by_creation e es

unfoldable pub sort_by_creation : List OutboxEvent → List OutboxEvent
sort_by_creation [] = []
sort_by_creation (e ∷ es) = insert_by_creation e (sort_by_creation es)

-- `take: limit`
unfoldable pub take {ℓ} : {A : Type ℓ} → ℕ → List A → List A
take zero xs = []
take (suc n) [] = []
take (suc n) (x ∷ xs) = x ∷ take n xs

-- `fetchPending`
unfoldable pub fetch_pending : ℕ → ℕ → Dict OutboxEvent → List OutboxEvent
fetch_pending now limit d = take limit (sort_by_creation (due_events now d))

-- `updateMany({ where: { id, status: 'PENDING' }, data })`
unfoldable pub update_pending :
    String → (OutboxEvent → OutboxEvent) → Dict OutboxEvent → Dict OutboxEvent
update_pending id changes d = elim (lookup id d) [
  | none ↦ d
  | some e ↦ if is_pending e then insert id (changes e) d else d
]

unfoldable pub mark_published : String → ℕ → Dict OutboxEvent → Dict OutboxEvent
mark_published id published_at =
    update_pending id (λ e. record e { status = published; published_at = some published_at })

unfoldable pub mark_retry : String → ℕ → ℕ → String → Dict OutboxEvent → Dict OutboxEvent
mark_retry id attempts available_at last_error = update_pending id (λ e. record e {
  attempts = attempts;
  available_at = available_at;
  last_error = some last_error;
})

unfoldable pub mark_failed : String → ℕ → String → Dict OutboxEvent → Dict OutboxEvent
mark_failed id attempts last_error =
    update_pending id
      (λ e. record e { status = failed; attempts = attempts; last_error = some last_error })
