-- ===== src/Outbox/Fetched.antt =====
-- Which events a batch takes.
-- Code: apps/api/src/common/outbox/prisma-outbox.store.ts
use elonew.Base.{
  ℕ, zero, suc, ◌≤◌, String, true, List, [], ◌∷◌, some, length, inl, inr, ◌⊎◌, ◌≡◌, refl, arith,
  Dict, lookup,
}
use elonew.Outbox.Store.{
  OutboxEvent, is_due, due_events, insert_by_creation, sort_by_creation, take, fetch_pending,
}
use elonew.Outbox.Dispatcher.{batch_size}
use elonew.Outbox.Work.{total, waiting}

-- The event is one of the list.
unfoldable pub Among : OutboxEvent → List OutboxEvent → Type 0
Among e [] = ⊥
Among e (f ∷ es) = (f ≡ e) ⊎ Among e es

-- With no more events waiting than a batch takes, a batch takes all that are due.
Among-due :
    (now : ℕ) (e : OutboxEvent) (d : Dict OutboxEvent) (k : String)
    → lookup k d ≡ some e
    → is_due now e ≡ true
    → Among e (due_events now d)
unfolding due_events lookup Among
Among-due now e [] k found due = cc found
Among-due now e ((j, f) ∷ d) k found due = ground (arith, Among-due now e d k)

Among-insert_by :
    (e f : OutboxEvent) (es : List OutboxEvent)
    → Among e (f ∷ es)
    → Among e (insert_by_creation f es)
unfolding insert_by_creation Among
Among-insert_by e f [] at = at
Among-insert_by e f (g ∷ es) at = ground (arith, Among-insert_by e f es)

Among-sort : (e : OutboxEvent) (es : List OutboxEvent) → Among e es → Among e (sort_by_creation es)
unfolding sort_by_creation Among
Among-sort e [] at = at
Among-sort e (f ∷ es) (inl here) = Among-insert_by e f (sort_by_creation es) (inl here)
Among-sort e (f ∷ es) (inr there) =
    Among-insert_by e f (sort_by_creation es) (inr (Among-sort e es there))

length-insert_by :
    (e : OutboxEvent) (es : List OutboxEvent) → length (insert_by_creation e es) ≡ suc (length es)
unfolding insert_by_creation
length-insert_by e [] = refl
length-insert_by e (f ∷ es) = ground (arith, length-insert_by e es)

length-sort : (es : List OutboxEvent) → length (sort_by_creation es) ≡ length es
unfolding sort_by_creation
length-sort [] = refl
length-sort (e ∷ es) = omega (arith, length-insert_by e (sort_by_creation es), length-sort es)

length-due : (now : ℕ) (d : Dict OutboxEvent) → length (due_events now d) ≤ waiting d
unfolding due_events total
length-due now [] = omega arith
length-due now ((k, e) ∷ d) = ground (arith, length-due now d)

take_all : (n : ℕ) (es : List OutboxEvent) → length es ≤ n → take n es ≡ es
unfolding take
take_all zero [] le = refl
take_all zero (e ∷ es) le = absurd (omega arith)
take_all (suc n) [] le = refl
take_all (suc n) (e ∷ es) le = rw (take_all n es (omega arith))

pub fetch_pending-all :
    (now : ℕ) (e : OutboxEvent) (d : Dict OutboxEvent) (k : String)
    → waiting d ≤ batch_size
    → lookup k d ≡ some e
    → is_due now e ≡ true
    → Among e (fetch_pending now batch_size d)
unfolding fetch_pending
fetch_pending-all now e d k few found due =
    rw
      (take_all batch_size (sort_by_creation (due_events now d))
        (omega (arith, length-sort (due_events now d), length-due now d)))
      (Among-sort e _ (Among-due now e d k found due))
