-- ===== src/Outbox/Settling.antt =====
-- No event waits for ever.
-- Code: apps/api/src/common/outbox
use mathlib.Core.Path.{subst}
use elonew.Base.{
  ℕ, ◌+◌, ◌-◌, ◌*◌, ◌≤◌, ◌<◌, String, true, false, List, [], ◌∷◌, some, All, All-map, length, inl,
  inr, ◌≡◌, ◌≢◌, refl, ap, ◌∙◌, arith, eq_iff, Bool-cases, Dict, Rows, lookup, lookup-insert_self,
  lookup-insert_ne, lookup-Rows,
}
use elonew.Outbox.Store.{OutboxEvent, is_pending, is_due, fetch_pending}
use elonew.Outbox.Dispatcher.{
  OutboxEventHandler, dispatch, dispatch_all, process_pending_batch, batch_size,
  outbox_poll_interval_ms,
}
use elonew.Outbox.Batch.{IsTable, IsBatch, Distinct, fetch_pending-IsBatch}
use elonew.Outbox.Fetched.{Among, fetch_pending-all}
use elonew.Outbox.Work.{
  remaining, IsEvent, settled, failure, dispatch-row, dispatch-spent, rest-IsBatch, waiting,
  head_row, settled-IsEvent,
}

lookup-id :
    (k : String) (d : Dict OutboxEvent) {e : OutboxEvent}
    → IsTable d
    → lookup k d ≡ some e
    → e.id ≡ k
unfolding IsTable lookup
lookup-id k [] t found = cc
lookup-id k ((j, f) ∷ d) {e} t found = ground (arith, eq_iff j k, lookup-id k d {e = e} t.2)

-- Dispatching events of other ids leaves a row alone.
other_row :
    (handlers : Dict OutboxEventHandler) (k : String) (es : List OutboxEvent) (now : ℕ)
    (d : Dict OutboxEvent)
    → IsTable d
    → Rows IsEvent d
    → IsBatch now d es
    → All (λ f. f.id ≢ k) es
    → lookup k (dispatch_all handlers es now d) ≡ lookup k d
unfolding dispatch_all
other_row handlers k [] now d t h b apart = refl
other_row handlers k (e ∷ es) now d t h b apart =
    let row = head_row now d e es b in
    let spent = dispatch-spent handlers e now d row.0 row.1 t h in
    other_row handlers k es now (dispatch handlers e now d) spent.0 spent.1
      (rest-IsBatch handlers e es now d b) apart.1
    ∙ ap (lookup k) (dispatch-row handlers e now d row.0 row.1)
    ∙ lookup-insert_ne e.id k _ d apart.0

first_row :
    (handlers : Dict OutboxEventHandler) (e : OutboxEvent) (es : List OutboxEvent) (now : ℕ)
    (d : Dict OutboxEvent)
    → IsTable d
    → Rows IsEvent d
    → IsBatch now d (e ∷ es)
    → lookup e.id (dispatch_all handlers (e ∷ es) now d)
      ≡ some (settled now e (failure handlers now e))
unfolding dispatch_all IsBatch Distinct
first_row handlers e es now d t h b =
    let row = head_row now d e es b in
    let spent = dispatch-spent handlers e now d row.0 row.1 t h in
    other_row handlers e.id es now (dispatch handlers e now d) spent.0 spent.1
      (rest-IsBatch handlers e es now d b) b.0.0
    ∙ ap (lookup e.id) (dispatch-row handlers e now d row.0 row.1)
    ∙ lookup-insert_self e.id _ d

own_row :
    (handlers : Dict OutboxEventHandler) (e : OutboxEvent) (es : List OutboxEvent) (now : ℕ)
    (d : Dict OutboxEvent)
    → IsTable d
    → Rows IsEvent d
    → IsBatch now d es
    → Among e es
    → lookup e.id (dispatch_all handlers es now d) ≡ some (settled now e (failure handlers now e))
unfolding dispatch_all Among
own_row handlers e [] now d t h b at = absurd at
own_row handlers e (f ∷ es) now d t h b (inl here) =
    subst
      (λ g.
        lookup g.id (dispatch_all handlers (f ∷ es) now d)
        ≡ some (settled now g (failure handlers now g)))
      here (first_row handlers f es now d t h b)
own_row handlers e (f ∷ es) now d t h b (inr there) =
    let row = head_row now d f es b in
    let spent = dispatch-spent handlers f now d row.0 row.1 t h in
    own_row handlers e es now (dispatch handlers f now d) spent.0 spent.1
      (rest-IsBatch handlers f es now d b) there

-- The table after a batch.
batch-kept :
    (handlers : Dict OutboxEventHandler) (es : List OutboxEvent) (now : ℕ) (d : Dict OutboxEvent)
    → IsTable d
    → Rows IsEvent d
    → IsBatch now d es
    → let d' = dispatch_all handlers es now d in
      IsTable d' × Rows IsEvent d' × (waiting d' ≤ waiting d)
unfolding dispatch_all
batch-kept handlers [] now d t h b = (t, h, omega arith)
batch-kept handlers (e ∷ es) now d t h b =
    let row = head_row now d e es b in
    let spent = dispatch-spent handlers e now d row.0 row.1 t h in
    let rest =
      batch-kept handlers es now (dispatch handlers e now d) spent.0 spent.1
        (rest-IsBatch handlers e es now d b) in
    (rest.0, rest.1, omega (arith, rest.2, spent.3))

-- Batches at the given times.
unfoldable pub run_batches : Dict OutboxEventHandler → List ℕ → Dict OutboxEvent → Dict OutboxEvent
run_batches handlers [] d = d
run_batches handlers (now ∷ times) d =
    run_batches handlers times (process_pending_batch handlers now d)

-- The longest wait before a retry.
abbrev pub longest_backoff : ℕ
longest_backoff = 45000

-- The batches are as the timer fires: at least an interval apart.
unfoldable pub Polled : ℕ → List ℕ → Type 0
Polled t [] = Unit
Polled t (now ∷ times) = (t + outbox_poll_interval_ms ≤ now) × Polled now times

batch_rows :
    (now : ℕ) (d : Dict OutboxEvent) (es : List OutboxEvent)
    → IsBatch now d es
    → All (λ e. (lookup e.id d ≡ some e) × (is_due now e ≡ true)) es
unfolding IsBatch
batch_rows now d es b = b.1

-- A batch passes by a row that is not due.
passed_by :
    (handlers : Dict OutboxEventHandler) (k : String) (e : OutboxEvent) (now : ℕ)
    (d : Dict OutboxEvent)
    → IsTable d
    → Rows IsEvent d
    → lookup k d ≡ some e
    → is_due now e ≡ false
    → lookup k (process_pending_batch handlers now d) ≡ some e
unfolding process_pending_batch
passed_by handlers k e now d t h found done =
    other_row handlers k (fetch_pending now batch_size d) now d t h b (
      All-map (λ f row same_id. ground (arith, row, ap (λ j. lookup j d) same_id)) _
        (batch_rows now d _ b))
    ∙ found
  where
    b : IsBatch now d (fetch_pending now batch_size d)
    b = fetch_pending-IsBatch now batch_size d t

-- An event that waits comes up, and its row is that of its dispatch.
comes_up :
    (handlers : Dict OutboxEventHandler) (k : String) (e : OutboxEvent) (now : ℕ)
    (d : Dict OutboxEvent)
    → IsTable d
    → Rows IsEvent d
    → waiting d ≤ batch_size
    → lookup k d ≡ some e
    → is_due now e ≡ true
    → lookup k (process_pending_batch handlers now d)
      ≡ some (settled now e (failure handlers now e))
unfolding process_pending_batch
comes_up handlers k e now d t h few found due =
    let id : e.id ≡ k = lookup-id k d t found in
    let own =
      own_row handlers e (fetch_pending now batch_size d) now d t h
        (fetch_pending-IsBatch now batch_size d t) (fetch_pending-all now e d k few found due) in
    subst
      (λ j.
        lookup j (dispatch_all handlers (fetch_pending now batch_size d) now d)
        ≡ some (settled now e (failure handlers now e)))
      id own

-- A retry comes no later than the longest wait.
settled-soon :
    (handlers : Dict OutboxEventHandler) (now : ℕ) (e : OutboxEvent)
    → is_due now e ≡ true
    → (settled now e (failure handlers now e)).available_at ≤ now + longest_backoff
unfolding failure
settled-soon handlers now e due = ground arith

-- `settles`, for an event that becomes due within so many polls.
settles_within :
    (handlers : Dict OutboxEventHandler) (times : List ℕ) (t wait : ℕ) (k : String)
    (e : OutboxEvent) (d : Dict OutboxEvent)
    → Polled t times
    → e.available_at ≤ t + outbox_poll_interval_ms * wait
    → wait ≤ 45
    → 46 * remaining e + wait ≤ length times + 45
    → IsTable d
    → Rows IsEvent d
    → waiting d ≤ batch_size
    → lookup k d ≡ some e
    → (e' : OutboxEvent) × (lookup k (run_batches handlers times d) ≡ some e')
      × (is_pending e' ≡ false)
unfolding run_batches Polled process_pending_batch
settles_within handlers [] t wait k e d s soon few_polls used tb h few found =
    let none_left : remaining e ≡ 0 = omega (arith, used) in
    (e, found, ground (arith, none_left, lookup-Rows IsEvent k d h found))
settles_within handlers (now ∷ times) t wait k e d s soon few_polls used tb h few found =
    let b = fetch_pending-IsBatch now batch_size d tb in
    let kept = batch-kept handlers (fetch_pending now batch_size d) now d tb h b in
    let few' : waiting (process_pending_batch handlers now d) ≤ batch_size =
      omega (arith, kept.2, few) in
    elim (Bool-cases (is_due now e)) [
      | inl due ↦
          let waits : is_pending e ≡ true = ground (arith, due) in
          let spent = settled-IsEvent handlers now e waits (lookup-Rows IsEvent k d h found) in
          settles_within handlers times now 45 k (settled now e (failure handlers now e))
            (process_pending_batch handlers now d) s.1 (settled-soon handlers now e due)
            (omega arith) (omega (arith, spent.1, used)) kept.0 kept.1 few'
            (comes_up handlers k e now d tb h few found due)
      | inr early ↦ elim (Bool-cases (is_pending e)) [
        | inl waits ↦
            let later : now < e.available_at = ground (arith, early, waits) in
            settles_within handlers times now (wait - 1) k e (process_pending_batch handlers now d)
              s.1 (omega (arith, soon, s.0, later)) (omega (arith, few_polls))
              (omega (arith, soon, s.0, later, used)) kept.0 kept.1 few'
              (passed_by handlers k e now d tb h found early)
        | inr done ↦
            let none_left : remaining e ≡ 0 = ground (arith, done) in
            settles_within handlers times now wait k e (process_pending_batch handlers now d) s.1
              (omega (arith, soon, s.0)) few_polls (omega (arith, none_left, few_polls)) kept.0
              kept.1 few' (passed_by handlers k e now d tb h found early)
      ]
    ]

-- An event is published or has failed for good after at most 46 polls for each attempt that it has
-- left, 460 for a new one, whatever the handlers do: polls are at least a second apart, as the timer
-- fires, at the start no more events wait than the 50 that a batch takes and the event is due within
-- the longest wait of 45 seconds, and none is written meanwhile.
pub settles :
    (handlers : Dict OutboxEventHandler) (times : List ℕ) (t : ℕ) (k : String) (e : OutboxEvent)
    (d : Dict OutboxEvent)
    → Polled t times
    → e.available_at ≤ t + longest_backoff
    → 46 * remaining e ≤ length times
    → IsTable d
    → Rows IsEvent d
    → waiting d ≤ batch_size
    → lookup k d ≡ some e
    → (e' : OutboxEvent) × (lookup k (run_batches handlers times d) ≡ some e')
      × (is_pending e' ≡ false)
settles handlers times t k e d s soon used tb h few found =
    settles_within handlers times t 45 k e d s soon (omega arith) (omega (arith, used)) tb h few
      found
