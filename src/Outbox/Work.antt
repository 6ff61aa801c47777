-- ===== src/Outbox/Work.antt =====
-- Every dispatch uses up an attempt of its event: the work that the outbox has left goes down.
-- Code: apps/api/src/common/outbox
use elonew.Base.{
  ℕ, suc, ◌+◌, ◌-◌, ◌*◌, ◌≤◌, ◌<◌, String, Bool, true, List, [], ◌∷◌, Option, none, some, is_some,
  if◌then◌else◌, All, inl, inr, ◌≡◌, ◌≢◌, refl, sym, ◌∙◌, arith, eq_iff, same, leb, Bool-cases,
  Option-cases, Dict, Rows, lookup, insert, lookup-insert, lookup-insert_ne, lookup-Rows,
  insert-Rows,
}
use mathlib.Core.Path.{subst}
use Prim.Native.String.{◌++◌}
use elonew.Outbox.Store.{
  OutboxEvent, pending, published, failed, is_pending, is_due, update_pending, mark_published,
  mark_retry, mark_failed,
}
use elonew.Outbox.Dispatcher.{
  OutboxEventHandler, resolve, dispatch, handle_failure, max_attempts, retry_backoff_ms,
}
use elonew.Outbox.Batch.{IsTable, IsBatch, Distinct}

-- The error that an event ends its attempt with, if any, and whether it is final.
unfoldable pub failure : Dict OutboxEventHandler → ℕ → OutboxEvent → Option (Bool × String)
failure handlers now e = elim (resolve e.event_type handlers) [
  | none ↦ some (true, "No handler registered for event type \"" ++ e.event_type ++ "\".")
  | some h ↦ elim (h.handle e now) [
    | none ↦ none
    | some message ↦ some (leb max_attempts (suc e.attempts), message)
  ]
]

-- The row that a dispatch leaves of a pending event.
abbrev pub settled : ℕ → OutboxEvent → Option (Bool × String) → OutboxEvent
settled now e none = record e { status = published; published_at = some now }
settled now e (some (final, message)) =
    let attempts = suc e.attempts in
    if final
    then record e { status = failed; attempts = attempts; last_error = some message }
    else record e {
      attempts = attempts;
      available_at = now + retry_backoff_ms * attempts;
      last_error = some message;
    }

-- What a row may hold: an event that waits has attempts left, and its state tells whether it was
-- published and whether it has failed.
abbrev pub IsEvent : OutboxEvent → Type 0
IsEvent e = elim e.status [
  | pending ↦ (e.attempts < max_attempts) × (e.published_at ≡ none)
  | published ↦ (e.attempts < max_attempts) × (is_some e.published_at ≡ true)
  | failed ↦ (e.attempts ≤ max_attempts) × (is_some e.last_error ≡ true) × (e.published_at ≡ none)
]

-- The attempts that an event has left.
abbrev pub remaining : OutboxEvent → ℕ
remaining e = if is_pending e then max_attempts - e.attempts else 0

-- The sum of a weight over the rows.
unfoldable pub total : (OutboxEvent → ℕ) → Dict OutboxEvent → ℕ
total weight [] = 0
total weight ((k, e) ∷ d) = weight e + total weight d

abbrev pub work : Dict OutboxEvent → ℕ
work = total remaining

-- The number of events that wait.
abbrev pub waiting : Dict OutboxEvent → ℕ
waiting = total (λ e. if is_pending e then 1 else 0)

pub dispatch-row :
    (handlers : Dict OutboxEventHandler) (e : OutboxEvent) (now : ℕ) (d : Dict OutboxEvent)
    → lookup e.id d ≡ some e
    → is_pending e ≡ true
    → dispatch handlers e now d ≡ insert e.id (settled now e (failure handlers now e)) d
unfolding dispatch failure handle_failure update_pending mark_published mark_retry mark_failed
dispatch-row handlers e now d found waits = elim (Option-cases (resolve e.event_type handlers)) [
  | inl absent ↦ ground arith
  | inr (h, registered) ↦ elim (Option-cases (h.handle e now)) [
    | inl fine ↦ ground arith
    | inr (message, threw) ↦ ground arith
  ]
]

pub settled-IsEvent :
    (handlers : Dict OutboxEventHandler) (now : ℕ) (e : OutboxEvent)
    → is_pending e ≡ true
    → IsEvent e
    → IsEvent (settled now e (failure handlers now e))
      × (suc (remaining (settled now e (failure handlers now e))) ≤ remaining e)
unfolding failure
settled-IsEvent handlers now e waits h = ground arith

total-insert :
    (weight : OutboxEvent → ℕ) (k : String) (e f : OutboxEvent) (d : Dict OutboxEvent)
    → lookup k d ≡ some e
    → total weight (insert k f d) + weight e ≡ total weight d + weight f
unfolding total insert lookup
total-insert weight k e f [] found = cc
total-insert weight k e f ((j, g) ∷ d) found = elim (Bool-cases (same j k)) [
  | inl hit ↦ let e' : g ≡ e = ground arith in rw (hit, e') (omega arith)
  | inr miss ↦ rw miss (omega (arith, total-insert weight k e f d (ground arith)))
]

insert-IsTable : (e : OutboxEvent) (d : Dict OutboxEvent) → IsTable d → IsTable (insert e.id e d)
unfolding IsTable insert lookup
insert-IsTable e [] h = (refl, refl, tt)
insert-IsTable e ((k, f) ∷ d) h =
    ground (arith, eq_iff k e.id, eq_iff e.id k, lookup-insert e.id k e d, insert-IsTable e d h.2)

pub settled-id :
    (now : ℕ) (e : OutboxEvent) (o : Option (Bool × String)) → (settled now e o).id ≡ e.id
settled-id now e none = refl
settled-id now e (some (final, message)) = ground arith

-- One event dispatched: the table stays one, its rows stay as they may be, the work goes down.
pub dispatch-spent :
    (handlers : Dict OutboxEventHandler) (e : OutboxEvent) (now : ℕ) (d : Dict OutboxEvent)
    → lookup e.id d ≡ some e
    → is_pending e ≡ true
    → IsTable d
    → Rows IsEvent d
    → let d' = dispatch handlers e now d in
      IsTable d' × Rows IsEvent d' × (suc (work d') ≤ work d) × (waiting d' ≤ waiting d)
dispatch-spent handlers e now d found waits t h =
    let e' = settled now e (failure handlers now e) in
    let ok = settled-IsEvent handlers now e waits (lookup-Rows IsEvent e.id d h found) in
    rw (dispatch-row handlers e now d found waits) (
      subst (λ k. IsTable (insert k e' d)) (settled-id now e (failure handlers now e))
          (insert-IsTable e' d t),
      insert-Rows IsEvent e.id e' d ok.0 h,
      omega (arith, ok.1, total-insert remaining e.id e e' d found),
      ground (arith, total-insert (λ f. if is_pending f then 1 else 0) e.id e e' d found),
    )

-- The rest of a batch stands as it was fetched.
pub rest-IsBatch :
    (handlers : Dict OutboxEventHandler) (e : OutboxEvent) (es : List OutboxEvent) (now : ℕ)
    (d : Dict OutboxEvent)
    → IsBatch now d (e ∷ es)
    → IsBatch now (dispatch handlers e now d) es
unfolding IsBatch Distinct
rest-IsBatch handlers e es now d b =
    rw (dispatch-row handlers e now d b.1.0.0 (ground (arith, b.1.0.1)))
      (b.0.1, others es b.0.0 b.1.1)
  where
    others :
        (fs : List OutboxEvent)
        → All (λ f. f.id ≢ e.id) fs
        → All (λ f. (lookup f.id d ≡ some f) × (is_due now f ≡ true)) fs
        → All
            (λ f.
              (lookup f.id (insert e.id (settled now e (failure handlers now e)) d) ≡ some f)
              × (is_due now f ≡ true))
            fs
    others [] apart all = tt
    others (f ∷ fs) apart all = (
      ((lookup-insert_ne e.id f.id _ d (λ x. apart.0 (sym x)) ∙ all.0.0), all.0.1),
      others fs apart.1 all.1,
    )

pub head_row :
    (now : ℕ) (d : Dict OutboxEvent) (e : OutboxEvent) (es : List OutboxEvent)
    → IsBatch now d (e ∷ es)
    → (lookup e.id d ≡ some e) × (is_pending e ≡ true)
unfolding IsBatch
head_row now d e es b = (b.1.0.0, ground (arith, b.1.0.1))
