-- ===== src/Outbox/Dispatcher.antt =====
-- apps/api/src/common/outbox/outbox-dispatcher.service.ts and outbox-event-handler.ts. What a handler
-- does outside the outbox is not kept; whether it throws, and with which message, is a function of the
-- event and the time, that a registered handler brings with it.
use Prim.Native.String.{◌++◌}
use elonew.Base.{
  ℕ, zero, suc, ◌+◌, ◌*◌, String, Bool, true, false, List, [], ◌∷◌, Option, none, some,
  if◌then◌else◌, leb, Dict, lookup, insert,
}
use elonew.Outbox.Store.{OutboxEvent, fetch_pending, mark_published, mark_retry, mark_failed}

abbrev pub outbox_poll_interval_ms : ℕ
outbox_poll_interval_ms = 1000

abbrev pub batch_size : ℕ
batch_size = 50

abbrev pub max_attempts : ℕ
max_attempts = 10

abbrev pub retry_backoff_ms : ℕ
retry_backoff_ms = 5000

-- `handle`: `none` when it returns, the message when it throws.
pub record OutboxEventHandler : Type 0 where
  pub event_types : List String
  pub handle : OutboxEvent → ℕ → Option String

-- `OutboxHandlerRegistry.register`
unfoldable pub register_types :
    List String → OutboxEventHandler → Dict OutboxEventHandler → Dict OutboxEventHandler
register_types [] handler handlers = handlers
register_types (t ∷ types) handler handlers =
    register_types types handler (insert t handler handlers)

unfoldable pub register : OutboxEventHandler → Dict OutboxEventHandler → Dict OutboxEventHandler
register handler handlers = register_types handler.event_types handler handlers

unfoldable pub resolve : String → Dict OutboxEventHandler → Option OutboxEventHandler
resolve event_type handlers = lookup event_type handlers

unfoldable pub handle_failure : OutboxEvent → ℕ → String → Dict OutboxEvent → Dict OutboxEvent
handle_failure event now message d =
    let attempts = event.attempts + 1 in
    if leb max_attempts attempts
    then mark_failed event.id attempts message d
    else mark_retry event.id attempts (now + retry_backoff_ms * attempts) message d

unfoldable pub dispatch :
    Dict OutboxEventHandler → OutboxEvent → ℕ → Dict OutboxEvent → Dict OutboxEvent
dispatch handlers event now d = elim (resolve event.event_type handlers) [
  | none ↦
      mark_failed event.id (event.attempts + 1)
        ("No handler registered for event type \"" ++ event.event_type ++ "\".") d
  | some handler ↦ elim (handler.handle event now) [
    | none ↦ mark_published event.id now d
    | some message ↦ handle_failure event now message d
  ]
]

-- `for (const event of events) await this.dispatch(event, now)`
unfoldable pub dispatch_all :
    Dict OutboxEventHandler → List OutboxEvent → ℕ → Dict OutboxEvent → Dict OutboxEvent
dispatch_all handlers [] now d = d
dispatch_all handlers (e ∷ es) now d = dispatch_all handlers es now (dispatch handlers e now d)

-- The body of `processPendingBatch`, when no other batch is running.
unfoldable pub process_pending_batch :
    Dict OutboxEventHandler → ℕ → Dict OutboxEvent → Dict OutboxEvent
process_pending_batch handlers now d = dispatch_all handlers (fetch_pending now batch_size d) now d

-- A call of `processPendingBatch` that is awaited: the events that it has still to dispatch.
pub record Loop : Type 0 where
  pub events : List OutboxEvent
  pub now : ℕ

-- The service between two events: the timer may fire while a call is awaited, and calls that are
-- awaited together would go on in any order.
pub record Service : Type 0 where
  pub store : Dict OutboxEvent
  pub running : Bool
  pub loops : List Loop
  -- The ids of the events that were handed to `dispatch`, the latest first.
  pub dispatched : List String

-- The timer fires, or the call of this index goes on.
pub data Step : Type 0 where
  tick : ℕ → Step
  advance : ℕ → Step

abbrev pub loop_at : ℕ → List Loop → Option Loop
loop_at i [] = none
loop_at zero (l ∷ ls) = some l
loop_at (suc i) (l ∷ ls) = loop_at i ls

abbrev pub put_loop : ℕ → Loop → List Loop → List Loop
put_loop i m [] = []
put_loop zero m (l ∷ ls) = m ∷ ls
put_loop (suc i) m (l ∷ ls) = l ∷ put_loop i m ls

abbrev pub remove_loop : ℕ → List Loop → List Loop
remove_loop i [] = []
remove_loop zero (l ∷ ls) = ls
remove_loop (suc i) (l ∷ ls) = l ∷ remove_loop i ls

-- One turn of the loop of a call, or its `finally`.
unfoldable pub turn : Dict OutboxEventHandler → ℕ → Option Loop → Service → Service
turn handlers i none s = s
turn handlers i (some l) s = elim l.events [
  | [] ↦ record s { running = false; loops = remove_loop i s.loops }
  | e ∷ es ↦ record s {
    store = dispatch handlers e l.now s.store;
    loops = put_loop i (record l { events = es }) s.loops;
    dispatched = e.id ∷ s.dispatched;
  }
]

-- `if (this.running) return;` and the fetch on a tick, and a turn on an advance.
unfoldable pub step : Dict OutboxEventHandler → Step → Service → Service
unfolding turn
step handlers (tick now) s = if s.running then s else record s {
  running = true;
  loops = record { events = fetch_pending now batch_size s.store; now = now } ∷ s.loops;
}
step handlers (advance i) s = turn handlers i (loop_at i s.loops) s

unfoldable pub run_steps : Dict OutboxEventHandler → List Step → Service → Service
run_steps handlers [] s = s
run_steps handlers (x ∷ xs) s = run_steps handlers xs (step handlers x s)
