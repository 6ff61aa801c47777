-- ===== src/Outbox/Tests.antt =====
-- Runs of the outbox, and the theorems at concrete inputs.
-- Code: apps/api/src/common/outbox
use elonew.Base.{
  ℕ, zero, suc, ◌+◌, ◌≤◌, ap, String, false, List, [], ◌∷◌, none, some, length, ◌≡◌, refl, arith,
  Dict, lookup,
}
use elonew.Outbox.Store.{
  OutboxEvent, pending, is_pending, fetch_pending, due_events, sort_by_creation, insert_by_creation,
  take,
}
use elonew.Outbox.Dispatcher.{OutboxEventHandler, Service, Step, tick, advance, run_steps}
use elonew.Outbox.Batch.{IsTable, IsBatch, Distinct}
use elonew.Outbox.Work.{work, total}
use elonew.Outbox.Deliveries.{IsSound, deliveries_bounded}
use elonew.Outbox.Settling.{Polled, run_batches, settles}

abbrev event_of : String → String → ℕ → OutboxEvent
event_of id event_type created_at = record {
  id = id;
  aggregate_type = "order";
  aggregate_id = "o1";
  event_type = event_type;
  payload = "{}";
  status = pending;
  attempts = 8;
  available_at = created_at;
  published_at = none;
  last_error = none;
  created_at = created_at;
}

-- A handler that never manages.
abbrev handlers : Dict OutboxEventHandler
handlers =
    ("order.paid", record { event_types = "order.paid" ∷ []; handle = λ e now. some "down" }) ∷ []

abbrev store : Dict OutboxEvent
store = ("e1", event_of "e1" "order.paid" 100) ∷ ("e2", event_of "e2" "unknown" 50) ∷ []

abbrev service : Service
service = record { store = store; running = false; loops = []; dispatched = [] }

service-IsSound : IsSound service
unfolding IsTable IsBatch Distinct lookup
service-IsSound = record {
  table = (refl, refl, (refl, refl, tt));
  rows = ((omega arith, refl), ((omega arith, refl), tt));
  loops = tt;
}

-- The older one first, and without a handler failed at once.
older_first :
    (fetch_pending 200 50 store)
    ≡ (event_of "e2" "unknown" 50 ∷ event_of "e1" "order.paid" 100 ∷ [])
unfolding fetch_pending due_events sort_by_creation insert_by_creation take
older_first = refl

abbrev turns : List Step
turns = tick 200 ∷ advance 0 ∷ tick 1200 ∷ advance 1 ∷ advance 0 ∷ advance 0 ∷ []

deliveries_bounded_example :
    IsSound (run_steps handlers turns service)
    × (work (run_steps handlers turns service).store
          + length (run_steps handlers turns service).dispatched
        ≤ 4)
unfolding total
deliveries_bounded_example = deliveries_bounded handlers turns service service-IsSound

-- So many polls, a second apart.
abbrev polls : ℕ → ℕ → List ℕ
polls t zero = []
polls t (suc n) = (t + 1000) ∷ polls (t + 1000) n

polls-Polled : (t n : ℕ) → Polled t (polls t n)
unfolding Polled
polls-Polled t zero = tt
polls-Polled t (suc n) = (omega arith, polls-Polled (t + 1000) n)

length-polls : (t n : ℕ) → length (polls t n) ≡ n
length-polls t zero = refl
length-polls t (suc n) = ap suc (length-polls (t + 1000) n)

-- Two attempts are left.
settles_example :
    (e' : OutboxEvent) × (lookup "e1" (run_batches handlers (polls 100 92) store) ≡ some e')
    × (is_pending e' ≡ false)
unfolding lookup total
settles_example =
    settles handlers (polls 100 92) 100 "e1" (event_of "e1" "order.paid" 100) store
      (polls-Polled 100 92) (omega arith) (omega (arith, length-polls 100 92)) service-IsSound.table
      service-IsSound.rows (omega arith) refl
