-- ===== src/Wallet/Release.antt =====
-- Which credits a release touches, and a release that is repeated: the queue may run the same job
-- more than once.
-- Code: apps/api/src/modules/wallet/domain/wallet.entity.ts (`releaseCredits`)
use elonew.Base.{
  ℕ, ◌+◌, ◌≤◌, true, false, List, [], ◌∷◌, map, ◌≡◌, refl, ap, ◌⊎◌, arith, if◌then◌else◌,
}
use elonew.Base.Int.{pos}
use elonew.Common.Errors.{ok, then_do-eq-ok}
use elonew.Wallet.Entity.{
  Wallet, WalletTransaction, WalletReleaseResult, ReleaseInput, Tally, is_releasable, release_loop,
  released_transaction, release_credits, fresh_tally, settle,
}
use elonew.Wallet.Ledger.{Round, release_loop-Round, release_loop-nil, after_release}

-- What a release makes of one transaction.
abbrev pub settle_one : ReleaseInput → WalletTransaction → WalletTransaction
settle_one input t = if is_releasable input t then released_transaction input t else t

pub count_releasable : ReleaseInput → List WalletTransaction → ℕ
count_releasable input [] = 0
count_releasable input (t ∷ ts) =
    if is_releasable input t then count_releasable input ts + 1 else count_releasable input ts

release_loop-map :
    (input : ReleaseInput) (ts : List WalletTransaction) (s : Tally)
    (r : Tally × List WalletTransaction)
    → release_loop input ts s ≡ ok r
    → (r.1 ≡ map (settle_one input) ts)
      × (r.0.released_count ≡ s.released_count + count_releasable input ts)
unfolding count_releasable
release_loop-map input [] s r h = rw (release_loop-nil input s h) (refl, omega arith)
release_loop-map input (t ∷ ts) s r h = elim (release_loop-Round input t ts s r h) [
  | Round.releases o y e q ↦
      let (m, c) = release_loop-map input ts (after_release t s) o e in
      rw (q, y) (ap (λ us. released_transaction input t ∷ us) m, omega (arith, c))
  | Round.keeps o n e q ↦
      let (m, c) = release_loop-map input ts s o e in rw (q, n) (ap (λ us. t ∷ us) m, c)
]

-- A release that succeeds marks exactly the releasable credits of its order as released, now and by
-- its source, leaves every other transaction as it was, in the same order, and counts the former.
pub release_credits-map :
    (input : ReleaseInput) (w : Wallet) (o : Wallet × WalletReleaseResult)
    → release_credits input w ≡ ok o
    → (o.0.transactions ≡ map (settle_one input) w.transactions)
      × (o.1.released_count ≡ count_releasable input w.transactions)
      × (o.0.booster_id ≡ w.booster_id)
unfolding release_credits
release_credits-map input w o h =
    let (r, e, k) = then_do-eq-ok (release_loop input w.transactions (fresh_tally w)) _ h in
    let (m, c) = release_loop-map input w.transactions (fresh_tally w) r e in
    let q : settle w r ≡ o = cc k in rw (← q) (m, omega (arith, c), refl)

module _ (first second : ReleaseInput) (same_order : second.order_id ≡ first.order_id)
    (no_more : (first.ignore_maturity ≡ true)
      ⊎ ((second.ignore_maturity ≡ false) × (second.now ≤ first.now))) where
  settle_one-covered : (t : WalletTransaction) → is_releasable second (settle_one first t) ≡ false
  unfolding is_releasable
  settle_one-covered t = ground arith

  release_loop-none :
      (ts : List WalletTransaction) (s : Tally)
      → release_loop second (map (settle_one first) ts) s ≡ ok (s, map (settle_one first) ts)
  unfolding release_loop
  release_loop-none [] s = refl
  release_loop-none (t ∷ ts) s =
      rw (settle_one-covered t, release_loop) (rw (release_loop-none ts s) refl)

  -- After a release, a second one of the same order that asks for no more (the first ignored
  -- maturity, or the second does not and is not later) succeeds, releases nothing, and leaves the
  -- wallet as it is.
  pub release_credits_again :
      (w : Wallet) (o : Wallet × WalletReleaseResult)
      → release_credits first w ≡ ok o
      → release_credits second o.0
        ≡ ok (o.0, record { released_amount = pos 0; released_count = 0 })
  unfolding release_credits
  release_credits_again w o h =
      rw (release_credits-map first w o h).0
        (rw (release_loop-none w.transactions (fresh_tally o.0)))
