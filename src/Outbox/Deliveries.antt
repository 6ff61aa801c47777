-- ===== src/Outbox/Deliveries.antt =====
-- The service at any moment: the timer may fire while a batch is awaited.
-- Code: apps/api/src/common/outbox/outbox-dispatcher.service.ts
use mathlib.Core.Path.{subst}
use elonew.Base.{
  ℕ, zero, suc, ◌+◌, ◌≤◌, Bool, true, false, none, some, List, [], ◌∷◌, length, inl, inr, ◌≡◌, refl,
  sym, arith, Bool-cases, Dict, Rows,
}
use elonew.Outbox.Store.{OutboxEvent, fetch_pending}
use elonew.Outbox.Dispatcher.{
  OutboxEventHandler, dispatch, dispatch_all, process_pending_batch, batch_size, Service, Step,
  tick, advance, step, run_steps, turn, Loop, loop_at,
}
use elonew.Outbox.Batch.{IsTable, IsBatch, fetch_pending-IsBatch}
use elonew.Outbox.Work.{IsEvent, work, dispatch-spent, rest-IsBatch, head_row}

-- At most one call is awaited, and where one is, the flag is up and its events are a batch.
abbrev pub AreSound : Bool → Dict OutboxEvent → List Loop → Type 0
AreSound running store [] = Unit
AreSound running store (l ∷ []) = (running ≡ true) × IsBatch l.now store l.events
AreSound running store (l ∷ m ∷ ls) = ⊥

-- What holds of the service at every moment.
pub record IsSound (s : Service) : Type 0 where
  pub table : IsTable s.store
  pub rows : Rows IsEvent s.store
  pub loops : AreSound s.running s.store s.loops

-- A step keeps the service sound and pays for what it hands to a handler.
Pays : Service → Service → Type 0
Pays s s' = IsSound s' × (work s'.store + length s'.dispatched ≤ work s.store + length s.dispatched)

no_loops : (store : Dict OutboxEvent) (ls : List Loop) → AreSound false store ls → ls ≡ []
no_loops store [] h = refl
no_loops store (l ∷ []) h = ground (arith, h.0)
no_loops store (l ∷ m ∷ ls) h = absurd h

tick_busy :
    (handlers : Dict OutboxEventHandler) (now : ℕ) (s : Service)
    → s.running ≡ true
    → step handlers (tick now) s ≡ s
unfolding step
tick_busy handlers now s busy = ground arith

tick_free :
    (handlers : Dict OutboxEventHandler) (now : ℕ) (s : Service)
    → s.running ≡ false
    → s.loops ≡ []
    → step handlers (tick now) s ≡ record s {
      running = true;
      loops = record { events = fetch_pending now batch_size s.store; now = now } ∷ [];
    }
unfolding step
tick_free handlers now s free alone = ground arith

tick-Pays :
    (handlers : Dict OutboxEventHandler) (now : ℕ) (s : Service)
    → IsSound s
    → Pays s (step handlers (tick now) s)
unfolding Pays
tick-Pays handlers now s h = elim (Bool-cases s.running) [
  | inl busy ↦ rw (tick_busy handlers now s busy) (h, omega arith)
  | inr free ↦
      let alone : s.loops ≡ [] = no_loops s.store s.loops (rw free at h.loops) in
      rw (tick_free handlers now s free alone) (
        record {
          table = h.table;
          rows = h.rows;
          loops = (refl, fetch_pending-IsBatch now batch_size s.store h.table);
        },
        omega arith,
      )
]

turn_over :
    (handlers : Dict OutboxEventHandler) (l : Loop) (s : Service)
    → s.loops ≡ l ∷ []
    → l.events ≡ []
    → turn handlers 0 (some l) s ≡ record s { running = false; loops = [] }
unfolding turn
turn_over handlers l s one over = rw (over, one) refl

turn_on :
    (handlers : Dict OutboxEventHandler) (l : Loop) (e : OutboxEvent) (es : List OutboxEvent)
    (s : Service)
    → s.loops ≡ l ∷ []
    → l.events ≡ e ∷ es
    → turn handlers 0 (some l) s ≡ record s {
      store = dispatch handlers e l.now s.store;
      loops = record l { events = es } ∷ [];
      dispatched = e.id ∷ s.dispatched;
    }
unfolding turn
turn_on handlers l e es s one next = rw (next, one) refl

-- A turn of the one call that is awaited.
only-Pays :
    (handlers : Dict OutboxEventHandler) (l : Loop) (es : List OutboxEvent) (s : Service)
    → IsSound s
    → s.loops ≡ l ∷ []
    → l.events ≡ es
    → Pays s (turn handlers 0 (some l) s)
unfolding Pays
only-Pays handlers l [] s h one over =
    rw (turn_over handlers l s one over)
      (record { table = h.table; rows = h.rows; loops = tt }, omega arith)
only-Pays handlers l (e ∷ es) s h one next =
    let mine = rw one at h.loops in
    let b = rw next at mine.1 in
    let row = head_row l.now s.store e es b in
    let spent = dispatch-spent handlers e l.now s.store row.0 row.1 h.table h.rows in
    rw (turn_on handlers l e es s one next) (
      record {
        table = spent.0;
        rows = spent.1;
        loops = (mine.0, rest-IsBatch handlers e es l.now s.store b);
      },
      omega (arith, spent.2),
    )

stays-Pays :
    (handlers : Dict OutboxEventHandler) (i : ℕ) (s : Service)
    → IsSound s
    → Pays s (turn handlers i none s)
unfolding Pays turn
stays-Pays handlers i s h = (h, omega arith)

turn-Pays :
    (handlers : Dict OutboxEventHandler) (ls : List Loop) (i : ℕ) (s : Service)
    → IsSound s
    → s.loops ≡ ls
    → Pays s (turn handlers i (loop_at i ls) s)
turn-Pays handlers [] i s h e = stays-Pays handlers i s h
turn-Pays handlers (l ∷ []) zero s h e = only-Pays handlers l l.events s h e refl
turn-Pays handlers (l ∷ []) (suc i) s h e = stays-Pays handlers (suc i) s h
turn-Pays handlers (l ∷ m ∷ ls) i s h e = absurd (rw e at h.loops)

advance-Pays :
    (handlers : Dict OutboxEventHandler) (i : ℕ) (s : Service)
    → IsSound s
    → Pays s (step handlers (advance i) s)
unfolding step
advance-Pays handlers i s h = turn-Pays handlers s.loops i s h refl

-- Whatever the handlers do, whenever the timer fires and in whatever order calls that are awaited go
-- on, at most one call is awaited at a time, and the number of deliveries and the attempts that are left
-- never add up to more than they did at the start: each event that is handed to a handler uses up at
-- least one attempt, so the outbox comes to rest. The rows stay such that an event that waits has
-- attempts left. The service is sound at the start, and no event is written meanwhile.
pub deliveries_bounded :
    (handlers : Dict OutboxEventHandler) (xs : List Step) (s : Service)
    → IsSound s
    → IsSound (run_steps handlers xs s)
      × (work (run_steps handlers xs s).store + length (run_steps handlers xs s).dispatched
          ≤ work s.store + length s.dispatched)
unfolding run_steps Pays
deliveries_bounded handlers [] s h = (h, omega arith)
deliveries_bounded handlers (tick now ∷ xs) s h =
    let one = tick-Pays handlers now s h in
    let rest = deliveries_bounded handlers xs (step handlers (tick now) s) one.0 in
    (rest.0, omega (arith, one.1, rest.1))
deliveries_bounded handlers (advance i ∷ xs) s h =
    let one = advance-Pays handlers i s h in
    let rest = deliveries_bounded handlers xs (step handlers (advance i) s) one.0 in
    (rest.0, omega (arith, one.1, rest.1))

unfoldable pub advances : ℕ → List Step
advances zero = []
advances (suc n) = advance 0 ∷ advances n

loop :
    (handlers : Dict OutboxEventHandler) (es : List OutboxEvent) (now : ℕ) (s : Service)
    → s.loops ≡ record { events = es; now = now } ∷ []
    → let s' = run_steps handlers (advances (suc (length es))) s in
      (s'.store ≡ dispatch_all handlers es now s.store) × (s'.running ≡ false)
unfolding run_steps step advances dispatch_all turn
loop handlers [] now s e = rw e (refl, refl)
loop handlers (f ∷ es) now s e = rw e (
    loop handlers es now
      (record s {
        store = dispatch handlers f now s.store;
        loops = record { events = es; now = now } ∷ [];
        dispatched = f.id ∷ s.dispatched;
      })
      refl)

-- A tick of a service that rests, and then a turn of the loop for each event and one for its end, leave
-- the rows as one call of `processPendingBatch` does, and the service rests again.
pub batch_by_steps :
    (handlers : Dict OutboxEventHandler) (now : ℕ) (s : Service)
    → s.running ≡ false
    → s.loops ≡ []
    → let turns = length (fetch_pending now batch_size s.store) in
      let s' = run_steps handlers (tick now ∷ advances (suc turns)) s in
      (s'.store ≡ process_pending_batch handlers now s.store) × (s'.running ≡ false)
unfolding run_steps process_pending_batch
batch_by_steps handlers now s free alone =
    let turns = advances (suc (length (fetch_pending now batch_size s.store))) in
    subst
      (λ s'.
        ((run_steps handlers turns s').store ≡ process_pending_batch handlers now s.store)
        × ((run_steps handlers turns s').running ≡ false))
      (sym (tick_free handlers now s free alone))
      (loop handlers (fetch_pending now batch_size s.store) now _ refl)
