-- ===== src/Payments/Swept.antt =====
-- The sweep of stale checkouts.
-- Code: apps/api/src/modules/payments/application/use-cases/reconcile-stale-checkouts
use mathlib.Core.Option.{Option}
use elonew.Base.{
  ℕ, suc, ◌+◌, ◌-◌, ◌*◌, ◌<◌, refl, true, List, [], ◌∷◌, some, none, inl, inr, ◌≡◌, ◌≢◌, arith,
  lookup, length, Option-cases,
}
use elonew.Common.Errors.{ok, Result, err, Result-cases}
use elonew.Common.Action.{Action, ◌>>◌}
use elonew.Payments.Status.{awaiting_confirmation}
use elonew.Payments.Entity.{Payment}
use elonew.Payments.Gateway.{PaymentGateway}
use elonew.Payments.Webhook.{Resolution, to_confirm, to_fail, pending, defer}
use elonew.Payments.Reconcile.{
  Candidate, Sweep, ReconciliationCounts, reconcile_payment, reconcile_all, settle, own_answer,
  still_awaiting, provider_payment, reconcile_stale_checkouts, expire_unstarted, empty_counts,
}
use elonew.Platform.World.{World}

abbrev pub total : ReconciliationCounts → ℕ
total c =
    c.confirmed_count + c.failed_count + c.pending_updated_count + c.expired_count + c.skipped_count
    + c.gateway_error_count

-- What a call for one candidate has counted: its outcome, once, and nothing where it throws.
abbrev Counted : Result (Unit {0}) × Sweep → Sweep → Type 0
Counted (ok _, s') s =
    (total s'.counts ≡ suc (total s.counts)) × (s'.counts.scanned_count ≡ s.counts.scanned_count)
Counted (err _, s') s = s'.counts ≡ s.counts

expire_unstarted-Counted :
    (before : ℕ) (c : Candidate) (s : Sweep) → Counted (expire_unstarted before c s) s
unfolding expire_unstarted
expire_unstarted-Counted before c s = ground arith

settle-Counted : (r : Resolution) (p : Payment) (s : Sweep) → Counted (settle r p s) s
unfolding settle
settle-Counted to_confirm p s = ground arith
settle-Counted to_fail p s = ground arith
settle-Counted pending p s = ground arith
settle-Counted defer p s = ground arith

reconcile_payment-Counted :
    (g : PaymentGateway) (before : ℕ) (c : Candidate) (s : Sweep)
    → Counted (reconcile_payment g before c s) s
unfolding reconcile_payment
reconcile_payment-Counted g before c s = elim (Result-cases (provider_payment g c.payment)) [
  | inr (x, e) ↦ rw (reconcile_payment, e) (omega arith, refl)
  | inl (answer, e) ↦ elim (Option-cases (own_answer c.payment.id answer)) [
    | inl n ↦ rw (reconcile_payment, e, n) (expire_unstarted-Counted before c s)
    | inr (n, y) ↦ elim (Option-cases (still_awaiting (lookup c.payment.id s.world.payments))) [
      | inl z ↦ rw (reconcile_payment, e, y, z) (omega arith, refl)
      | inr (p, z) ↦ rw (reconcile_payment, e, y, z) (settle-Counted _ _ s)
    ]
  ]
]

-- What a run over candidates has counted: each once, or fewer where it throws.
abbrev CountedAll : ℕ → Result (Unit {0}) × Sweep → Sweep → Type 0
CountedAll n (ok _, s') s =
    (total s'.counts ≡ total s.counts + n) × (s'.counts.scanned_count ≡ s.counts.scanned_count)
CountedAll n (err _, s') s =
    (total s'.counts < total s.counts + n) × (s'.counts.scanned_count ≡ s.counts.scanned_count)

CountedAll-cons :
    (n : ℕ) (first : Action Sweep (Unit {0})) (rest : Action Sweep (Unit {0})) (s : Sweep)
    → Counted (first s) s
    → CountedAll n (rest (first s).1) (first s).1
    → CountedAll (suc n) ((first >> rest) s) s
CountedAll-cons n first rest s one more = ground (arith, one, more)

reconcile_all-CountedAll :
    (g : PaymentGateway) (before : ℕ) (cs : List Candidate) (s : Sweep)
    → CountedAll (length cs) (reconcile_all g before cs s) s
unfolding reconcile_all
reconcile_all-CountedAll g before [] s = (omega arith, refl)
reconcile_all-CountedAll g before (c ∷ cs) s =
    CountedAll-cons (length cs) (reconcile_payment g before c) (reconcile_all g before cs) s
      (reconcile_payment-Counted g before c s)
      (reconcile_all-CountedAll g before cs (reconcile_payment g before c s).1)

-- What a sweep that has the lock answers and logs: the counts that it logs are those that it returns
-- and count every candidate; where it throws, it logs fewer outcomes than it has scanned.
abbrev pub Told : Result (Option ReconciliationCounts) × Sweep → Type 0
Told (ok (some c), s) = (c ≡ s.counts) × (total c ≡ c.scanned_count)
Told (ok none, s) = ⊥
Told (err _, s) = total s.counts < s.counts.scanned_count

-- A sweep that has the lock scans every candidate. Where it ends, it returns the counts that it logs,
-- and its six outcomes add up to the number scanned; where it throws, it has counted fewer outcomes
-- than it has scanned.
pub reconcile-counts :
    (g : PaymentGateway) (now : ℕ) (cs : List Candidate) (w : World)
    → ((reconcile_stale_checkouts g true now cs w).1.counts.scanned_count ≡ length cs)
      × Told (reconcile_stale_checkouts g true now cs w)
unfolding reconcile_stale_checkouts
reconcile-counts g now cs w =
    let start : Sweep = record {
      world = w;
      counts = record (empty_counts) { scanned_count = length cs };
    } in
    let run = reconcile_all-CountedAll g (now - 24 * 3600000) cs start in
    (ground (arith, run), ground (arith, run))

-- Whatever the provider answers, the sweep changes nothing for a candidate whose payment no longer
-- awaits its confirmation in the table.
pub reconcile_payment-settled :
    (g : PaymentGateway) (before : ℕ) (c : Candidate) (s : Sweep) {p : Payment}
    → lookup c.payment.id s.world.payments ≡ some p
    → p.status ≢ awaiting_confirmation
    → (reconcile_payment g before c s).1.world ≡ s.world
unfolding reconcile_payment expire_unstarted
reconcile_payment-settled g before c s found settled = ground (arith)
