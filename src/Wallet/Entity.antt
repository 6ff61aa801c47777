-- ===== src/Wallet/Entity.antt =====
-- apps/api/src/modules/wallet/domain/wallet.entity.ts: the `Wallet` class. The random id of a new
-- transaction is an argument. A method that throws leaves a wallet that nobody saves.
use elonew.Base.{
  ℕ, ◌+◌, String, Bool, true, false, not, ◌&&◌, ◌||◌, ltb, List, [], ◌∷◌, ◌++◌, Option, none, some,
  find, is_some, holds_text, if◌then◌else◌,
}
use elonew.Base.Int.{ℤ, pos, leb_ℤ, ltb_ℤ}
use elonew.Common.Errors.{
  Result, ok, err, ◌then_do◌, wallet_invalid_amount, wallet_insufficient_withdrawable_balance,
}
use elonew.Money.Amount.{from_cents, add, subtract}

pub data WalletTransactionType : Type 0 where
  credit debit : WalletTransactionType

pub data WalletTransactionReason : Type 0 where
  order_completion withdrawal_request : WalletTransactionReason

pub data WalletTransactionReleaseSource : Type 0 where
  schedule admin : WalletTransactionReleaseSource

pub record WalletTransaction : Type 0 where
  pub id : String
  pub order_id : Option String
  pub amount : ℤ
  pub type : WalletTransactionType
  pub reason : WalletTransactionReason
  pub payout_pix_key : Option String
  pub available_at : ℕ
  pub released_at : Option ℕ
  pub released_by : Option WalletTransactionReleaseSource
  pub created_at : ℕ

pub record Wallet : Type 0 where
  pub booster_id : String
  pub balance_locked : ℤ
  pub balance_withdrawable : ℤ
  pub transactions : List WalletTransaction

unfoldable pub create : String → Wallet
create booster_id = record {
  booster_id = booster_id;
  balance_locked = pos 0;
  balance_withdrawable = pos 0;
  transactions = [];
}

abbrev pub is_credit : WalletTransactionType → Bool
is_credit credit = true
is_credit debit = false

abbrev pub is_order_completion : WalletTransactionReason → Bool
is_order_completion order_completion = true
is_order_completion withdrawal_request = false

-- `Money.fromCents(a).add(Money.fromCents(b)).cents`, and the same with `subtract`.
unfoldable pub add_cents : ℤ → ℤ → Result ℤ
add_cents a b = from_cents a then_do λ x. from_cents b then_do λ y. add x y then_do λ z. ok z.cents

unfoldable pub subtract_cents : ℤ → ℤ → Result ℤ
subtract_cents a b =
    from_cents a then_do λ x. from_cents b then_do λ y. subtract x y then_do λ z. ok z.cents

unfoldable pub assert_positive_amount : ℤ → Result (Unit {0})
assert_positive_amount amount = if leb_ℤ amount (pos 0) then err wallet_invalid_amount else ok tt

pub record CreditLockedInput : Type 0 where
  pub order_id : String
  pub amount : ℤ
  pub available_at : ℕ
  pub created_at : ℕ

abbrev pub credit_transaction : String → CreditLockedInput → WalletTransaction
credit_transaction id input = record {
  id = id;
  order_id = some input.order_id;
  amount = input.amount;
  type = credit;
  reason = order_completion;
  payout_pix_key = none;
  available_at = input.available_at;
  released_at = none;
  released_by = none;
  created_at = input.created_at;
}

unfoldable pub credit_locked : String → CreditLockedInput → Wallet → Result Wallet
unfolding assert_positive_amount
credit_locked id input w = assert_positive_amount input.amount then_do λ _.
    add_cents w.balance_locked input.amount then_do λ locked. ok (record w {
      balance_locked = locked;
      transactions = w.transactions ++ (credit_transaction id input ∷ []);
    })

unfoldable pub find_order_completion_credit : String → Wallet → Option WalletTransaction
find_order_completion_credit order_id w =
    find (λ t. is_credit t.type && (is_order_completion t.reason && holds_text t.order_id order_id))
      w.transactions

pub record ReleaseInput : Type 0 where
  pub order_id : String
  pub now : ℕ
  pub source : WalletTransactionReleaseSource
  pub ignore_maturity : Bool

-- The balances and the result of `releaseCredits`, which its loop updates.
pub record Tally : Type 0 where
  pub locked : ℤ
  pub withdrawable : ℤ
  pub released_amount : ℤ
  pub released_count : ℕ

-- The tests of the loop that do not `continue`.
unfoldable pub is_releasable : ReleaseInput → WalletTransaction → Bool
is_releasable input t =
    is_credit t.type
    && (holds_text t.order_id input.order_id
        && (not (is_some t.released_at)
            && (input.ignore_maturity || not (ltb input.now t.available_at))))

abbrev pub released_transaction : ReleaseInput → WalletTransaction → WalletTransaction
released_transaction input t = record t {
  released_at = some input.now;
  released_by = some input.source;
}

-- The three sums of the loop's body.
unfoldable pub release_amount : ℤ → Tally → Result Tally
release_amount amount s = subtract_cents s.locked amount then_do λ locked.
    add_cents s.withdrawable amount then_do λ withdrawable.
    add_cents s.released_amount amount then_do λ released. ok (record {
      locked = locked;
      withdrawable = withdrawable;
      released_amount = released;
      released_count = s.released_count + 1;
    })

abbrev prepend : WalletTransaction → Tally × List WalletTransaction → Tally × List WalletTransaction
prepend t (s, ts) = (s, t ∷ ts)

-- The loop of `releaseCredits` over the transactions.
unfoldable pub release_loop :
    ReleaseInput → List WalletTransaction → Tally → Result (Tally × List WalletTransaction)
release_loop input [] s = ok (s, [])
release_loop input (t ∷ ts) s = elim (is_releasable input t) [
  | true ↦ release_amount t.amount s then_do λ s'.
      release_loop input ts s' then_do λ r. ok (prepend (released_transaction input t) r)
  | false ↦ release_loop input ts s then_do λ r. ok (prepend t r)
]

pub record WalletReleaseResult : Type 0 where
  pub released_amount : ℤ
  pub released_count : ℕ

abbrev pub fresh_tally : Wallet → Tally
fresh_tally w = record {
  locked = w.balance_locked;
  withdrawable = w.balance_withdrawable;
  released_amount = pos 0;
  released_count = 0;
}

abbrev pub settle : Wallet → Tally × List WalletTransaction → Wallet × WalletReleaseResult
settle w (s, ts) = (
  record w { balance_locked = s.locked; balance_withdrawable = s.withdrawable; transactions = ts },
  record { released_amount = s.released_amount; released_count = s.released_count },
)

unfoldable pub release_credits : ReleaseInput → Wallet → Result (Wallet × WalletReleaseResult)
release_credits input w =
    release_loop input w.transactions (fresh_tally w) then_do λ r. ok (settle w r)

unfoldable pub release_order_completion_funds :
    String → ℕ → Wallet → Result (Wallet × WalletReleaseResult)
release_order_completion_funds order_id now w =
    release_credits
      (record { order_id = order_id; now = now; source = schedule; ignore_maturity = false }) w

unfoldable pub force_release_order_completion_funds :
    String → ℕ → Wallet → Result (Wallet × WalletReleaseResult)
force_release_order_completion_funds order_id now w =
    release_credits
      (record { order_id = order_id; now = now; source = admin; ignore_maturity = true }) w

pub record WithdrawInput : Type 0 where
  pub amount : ℤ
  pub payout_pix_key : String
  pub requested_at : ℕ

abbrev pub debit_transaction : String → WithdrawInput → WalletTransaction
debit_transaction id input = record {
  id = id;
  order_id = none;
  amount = input.amount;
  type = debit;
  reason = withdrawal_request;
  payout_pix_key = some input.payout_pix_key;
  available_at = input.requested_at;
  released_at = some input.requested_at;
  released_by = none;
  created_at = input.requested_at;
}

unfoldable pub withdraw : String → WithdrawInput → Wallet → Result Wallet
unfolding assert_positive_amount
withdraw id input w = assert_positive_amount input.amount then_do λ _.
    if ltb_ℤ w.balance_withdrawable input.amount
    then err wallet_insufficient_withdrawable_balance
    else subtract_cents w.balance_withdrawable input.amount then_do λ withdrawable. ok (record w {
      balance_withdrawable = withdrawable;
      transactions = debit_transaction id input ∷ w.transactions;
    })
