-- ===== src/Accounts/Payout.antt =====
-- What an administrator's payout of a booster does to the wallets, and what the scheduled release and
-- a second payout find afterwards.
-- Code: apps/api/src/modules/admin/application/use-cases/release-admin-order-booster-payment,
-- apps/api/src/modules/wallet/application/use-cases
use elonew.Base.{
  ℕ, String, Bool, true, false, List, [], ◌∷◌, map, some, find, is_some, holds_text, ◌&&◌, insert,
  same, ◌≡◌, refl, inl, inr, arith, lookup, lookup-insert_self, Option-cases, Bool-cases, truthy,
}
use elonew.Base.Int.{pos, ◌+ℤ◌}
use elonew.Common.Errors.{
  ok, err, is_ok, is_ok-eq-ok, Result-cases, wallet_order_completion_already_released,
}
use elonew.Orders.Status.{completed}
use elonew.Orders.Repository.{OrderRow, IsReadable, map_order_from_record, map_extras_from_record}
use elonew.Orders.Repository.Saved.{map_extras-same}
use elonew.Wallet.Entity.{
  Wallet, WalletTransaction, WalletReleaseResult, ReleaseInput, schedule, admin, is_releasable,
  is_credit, is_order_completion, release_credits, find_order_completion_credit,
  force_release_order_completion_funds, release_order_completion_funds,
}
use elonew.Wallet.Ledger.{IsBalanced}
use elonew.Wallet.Balance.{release_credits-IsBalanced}
use elonew.Wallet.Release.{settle_one, release_credits-map, release_credits_again}
use elonew.Wallet.UseCases.{
  skipped, already_released, force_release, release_matured_wallet_funds, ForceReleaseOutput,
}
use elonew.Platform.World.{World}
use elonew.Accounts.UseCases.{Services}
use elonew.Accounts.Interventions.{release_admin_order_booster_payment}

abbrev by_admin : String → ℕ → ReleaseInput
by_admin order now = record { order_id = order; now = now; source = admin; ignore_maturity = true }

abbrev by_schedule : String → ℕ → ReleaseInput
by_schedule order now = record {
  order_id = order;
  now = now;
  source = schedule;
  ignore_maturity = false;
}

-- The test of `findOrderCompletionCredit`.
abbrev is_credit_of : String → WalletTransaction → Bool
is_credit_of order t =
    is_credit t.type && (is_order_completion t.reason && holds_text t.order_id order)

settle_one-IsReleased :
    (order : String) (now : ℕ) (t : WalletTransaction)
    → is_credit_of order t ≡ true
    → is_some (settle_one (by_admin order now) t).released_at ≡ true
unfolding is_releasable
settle_one-IsReleased order now t h = ground arith

settle_one-is_credit_of :
    (order : String) (now : ℕ) (t : WalletTransaction)
    → is_credit_of order (settle_one (by_admin order now) t) ≡ is_credit_of order t
unfolding is_releasable
settle_one-is_credit_of order now t = ground arith

-- The credit of an order that is found after a forced release has been released.
find_released :
    (order : String) (now : ℕ) (ts : List WalletTransaction) {t : WalletTransaction}
    → find (is_credit_of order) ts ≡ some t
    → (t' : WalletTransaction) × (find
          (is_credit_of order)
          (map (settle_one (by_admin order now)) ts)
        ≡ some t')
      × (is_some t'.released_at ≡ true)
find_released order now [] h = ground arith
find_released order now (x ∷ ts) {t} h = elim (Bool-cases (is_credit_of order x)) [
  | inl y ↦ (
    settle_one (by_admin order now) x,
    rw (settle_one-is_credit_of order now x, y) refl,
    settle_one-IsReleased order now x y,
  )
  | inr n ↦
      let (t', e, d) = find_released order now ts {t = t} (ground arith) in
      (t', rw (settle_one-is_credit_of order now x, n) e, d)
]

-- A forced release that succeeds has found the order's credit and released it.
force_release-ok :
    (booster order : String) (now : ℕ) (w : World) {wal : Wallet} {a : ForceReleaseOutput}
    → lookup booster w.wallets ≡ some wal
    → (force_release booster order now w).0 ≡ ok a
    → (o : Wallet × WalletReleaseResult) × (release_credits (by_admin order now) wal ≡ ok o)
      × ((force_release booster order now w).1
          ≡ record w { wallets = insert o.0.booster_id o.0 w.wallets })
      × ((t : WalletTransaction) × (find_order_completion_credit order o.0 ≡ some t)
          × (is_some t.released_at ≡ true))
unfolding force_release force_release_order_completion_funds find_order_completion_credit
force_release-ok booster order now w {wal} found h =
    elim (Option-cases (find_order_completion_credit order wal)) [
      | inl e ↦ ground arith
      | inr (t, e) ↦ elim (Result-cases (release_credits (by_admin order now) wal)) [
        | inl (o, k) ↦ (
          o,
          k,
          ground arith,
          rw (release_credits-map (by_admin order now) wal o k).0
              (find_released order now wal.transactions e),
        )
        | inr (_, k) ↦ ground arith
      ]
    ]

-- What a payout that succeeds, of an order that has this booster, has found and done.
module _ (v : Services) (admin_id booster reason : String) (now : ℕ) (w : World) {r : OrderRow}
    (row : lookup r.id w.orders ≡ some r) (mine : r.booster_id ≡ some booster)
    (h : (release_admin_order_booster_payment v admin_id r.id reason now w).0 ≡ ok tt) where
  payout-completed : (r.status ≡ completed) × (truthy r.booster_id ≡ true)
  unfolding release_admin_order_booster_payment map_order_from_record
  payout-completed = (ground arith, ground arith)

  payout-read : is_ok (map_extras_from_record r.extras) ≡ true
  unfolding release_admin_order_booster_payment map_order_from_record
  payout-read = ground arith

  payout-IsReadable : IsReadable r
  payout-IsReadable =
      let (xs, e) = is_ok-eq-ok _ payout-read in
      let q : xs ≡ r.extras = map_extras-same r.extras e in cc (e, q)

  payout-released : is_ok (force_release booster r.id now w).0 ≡ true
  unfolding release_admin_order_booster_payment map_order_from_record
  payout-released = ground arith

  payout-wallets :
      (release_admin_order_booster_payment v admin_id r.id reason now w).1.wallets
      ≡ (force_release booster r.id now w).1.wallets
  unfolding release_admin_order_booster_payment map_order_from_record
  payout-wallets = ground arith

  payout-orders :
      (release_admin_order_booster_payment v admin_id r.id reason now w).1.orders
      ≡ (force_release booster r.id now w).1.orders
  unfolding release_admin_order_booster_payment map_order_from_record
  payout-orders = ground arith

-- A payout of a credit that has been released is refused.
payout_refused :
    (v : Services) (admin_id booster reason : String) (now : ℕ) (u : World) {r : OrderRow}
    {o : Wallet} {t : WalletTransaction}
    → lookup r.id u.orders ≡ some r
    → r.status ≡ completed
    → r.booster_id ≡ some booster
    → truthy r.booster_id ≡ true
    → IsReadable r
    → same (v.trim reason) "" ≡ false
    → lookup booster u.wallets ≡ some o
    → find_order_completion_credit r.id o ≡ some t
    → is_some t.released_at ≡ true
    → release_admin_order_booster_payment v admin_id r.id reason now u
      ≡ (err wallet_order_completion_already_released, u)
unfolding release_admin_order_booster_payment map_order_from_record force_release
payout_refused v admin_id booster reason now u row st mine full readable good wal c d = ground arith

-- The scheduled release skips it.
matured_skips :
    (booster order : String) (now : ℕ) (u : World) {o : Wallet} {t : WalletTransaction}
    → lookup booster u.wallets ≡ some o
    → find_order_completion_credit order o ≡ some t
    → is_some t.released_at ≡ true
    → release_credits (by_schedule order now) o
      ≡ ok (o, record { released_amount = pos 0; released_count = 0 })
    → release_matured_wallet_funds booster order now u ≡ (ok (skipped already_released), u)
unfolding release_matured_wallet_funds release_order_completion_funds
matured_skips booster order now u wal c d k = ground arith

-- A payout by an administrator that succeeds, with the order's row and the booster's balanced wallet
-- under their ids, is of a completed order, and the booster's two balances keep their sum. It is the
-- last one: another administrator who gives a reason is told that it has already been released, and
-- the scheduled release, at any time, skips it, and neither changes anything.
pub payout_once :
    (v : Services) (first second reason again : String) (now later : ℕ) (w : World) {r : OrderRow}
    {wal : Wallet}
    → lookup r.id w.orders ≡ some r
    → r.booster_id ≡ some wal.booster_id
    → lookup wal.booster_id w.wallets ≡ some wal
    → IsBalanced wal
    → (release_admin_order_booster_payment v first r.id reason now w).0 ≡ ok tt
    → same (v.trim again) "" ≡ false
    → let w' = (release_admin_order_booster_payment v first r.id reason now w).1 in
      (r.status ≡ completed)
      × ((o : Wallet) × (lookup wal.booster_id w'.wallets ≡ some o)
          × (o.balance_locked +ℤ o.balance_withdrawable
              ≡ wal.balance_locked +ℤ wal.balance_withdrawable))
      × (release_admin_order_booster_payment v second r.id again later w'
          ≡ (err wallet_order_completion_already_released, w'))
      × (release_matured_wallet_funds wal.booster_id r.id later w'
          ≡ (ok (skipped already_released), w'))
payout_once v first second reason again now later w {r} {wal} row mine found b h good =
    let (st, full) = payout-completed v first wal.booster_id reason now w row mine h in
    let (a, f) = is_ok-eq-ok _ (payout-released v first wal.booster_id reason now w row mine h) in
    let readable = payout-IsReadable v first wal.booster_id reason now w row mine h in
    let ws = payout-wallets v first wal.booster_id reason now w row mine h in
    let os = payout-orders v first wal.booster_id reason now w row mine h in
    let (o, k, e, (t, c, d)) = force_release-ok wal.booster_id r.id now w found f in
    let total = release_credits-IsBalanced (by_admin r.id now) wal o b k in
    let kept = release_credits-map (by_admin r.id now) wal o k in
    let row' : lookup r.id (release_admin_order_booster_payment v first r.id reason now w).1.orders
        ≡ some r =
      rw (os, e) row in
    let found' : lookup wal.booster_id
          (release_admin_order_booster_payment v first r.id reason now w).1.wallets
        ≡ some o.0 =
      grind (arith, lookup-insert_self, ws, e, kept) in
    (
      st,
      (o.0, found', total.1),
      payout_refused v second wal.booster_id again later _ row' st mine full readable good found' c
          d,
      matured_skips wal.booster_id r.id later _ found' c d (
          release_credits_again (by_admin r.id now) (by_schedule r.id later) refl (inl refl) wal o
            k),
    )
