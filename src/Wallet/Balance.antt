-- ===== src/Wallet/Balance.antt =====
-- The balance of a wallet under its methods.
-- Code: apps/api/src/modules/wallet/domain/wallet.entity.ts
use elonew.Base.{String, List, [], ◌∷◌, ◌++◌, ◌≡◌, refl, arith, All}
use elonew.Base.Int.{pos, ◌+ℤ◌, ◌-ℤ◌, ◌≤ℤ◌, ◌<ℤ◌, parts_of_eq, int_laws}
use elonew.Common.Errors.{Result, ok, err, then_do-eq-ok}
use elonew.Wallet.Entity.{
  Wallet, WalletTransaction, WalletReleaseResult, CreditLockedInput, WithdrawInput, ReleaseInput,
  Tally, create, credit_locked, credit_transaction, debit_transaction, release_loop,
  release_credits, fresh_tally, settle, withdraw,
}
use elonew.Wallet.Ledger.{
  IsBalanced, IsPositive, sum, sum-append, locked_part, free_part, add_cents-cases,
  subtract_cents-cases, Moved, release_loop-Moved,
}

pub create-IsBalanced : (b : String) → IsBalanced (create b)
unfolding create sum
create-IsBalanced b = ground arith

pub credit_locked-eq :
    (id : String) (input : CreditLockedInput) (w : Wallet) {w' : Wallet}
    → credit_locked id input w ≡ ok w'
    → (pos 0 <ℤ input.amount)
      × (w' ≡ record w {
        balance_locked = w.balance_locked +ℤ input.amount;
        transactions = w.transactions ++ (credit_transaction id input ∷ []);
      })
unfolding credit_locked
credit_locked-eq id input w h = ground (arith, add_cents-cases w.balance_locked input.amount)

All-append :
    (ts us : List WalletTransaction)
    → All IsPositive ts
    → All IsPositive us
    → All IsPositive (ts ++ us)
All-append [] us h k = k
All-append (t ∷ ts) us h k = (h.0, All-append ts us h.1 k)

-- A locked credit that is accepted keeps the wallet balanced.
pub credit_locked-IsBalanced :
    (id : String) (input : CreditLockedInput) (w : Wallet) {w' : Wallet}
    → IsBalanced w
    → credit_locked id input w ≡ ok w'
    → IsBalanced w'
credit_locked-IsBalanced id input w b h =
    let (p, e) = credit_locked-eq id input w h in
    let new = credit_transaction id input in
    rw e (record {
      locked =
          rw (sum-append locked_part w.transactions (new ∷ []), b.locked)
            (unfold sum in omega int_laws);
      withdrawable =
          rw (sum-append free_part w.transactions (new ∷ []), b.withdrawable)
            (unfold sum in omega int_laws);
      positive = All-append w.transactions (new ∷ []) b.positive (p, tt);
      covered = b.covered;
    })

withdraw-eq :
    (id : String) (input : WithdrawInput) (w : Wallet) {w' : Wallet}
    → withdraw id input w ≡ ok w'
    → (pos 0 <ℤ input.amount)
      × (input.amount ≤ℤ w.balance_withdrawable)
      × (w' ≡ record w {
        balance_withdrawable = w.balance_withdrawable -ℤ input.amount;
        transactions = debit_transaction id input ∷ w.transactions;
      })
unfolding withdraw
withdraw-eq id input w h = ground (arith, subtract_cents-cases w.balance_withdrawable input.amount)

-- A withdrawal that is accepted keeps the wallet balanced: it never overdraws.
pub withdraw-IsBalanced :
    (id : String) (input : WithdrawInput) (w : Wallet) {w' : Wallet}
    → IsBalanced w
    → withdraw id input w ≡ ok w'
    → IsBalanced w'
unfolding sum
withdraw-IsBalanced id input w b h =
    let (p, c, e) = withdraw-eq id input w h in
    rw e (record {
      locked = rw b.locked (omega int_laws);
      withdrawable = rw b.withdrawable (omega int_laws);
      positive = (p, b.positive);
      covered = omega (int_laws, c);
    })

settle-IsBalanced :
    (w : Wallet) (r : Tally × List WalletTransaction)
    → IsBalanced w
    → Moved w.transactions r.1 (fresh_tally w) r.0
    → IsBalanced (settle w r).0
settle-IsBalanced w r b m = record {
  locked = omega (int_laws, parts_of_eq b.locked, parts_of_eq m.locked);
  withdrawable = omega (int_laws, parts_of_eq b.withdrawable, parts_of_eq m.withdrawable);
  positive = m.positive;
  covered = omega (int_laws, b.covered, m.grown);
}

-- A release, scheduled or forced, keeps the wallet balanced, moves money from the locked to the
-- withdrawable balance without changing their sum, and reports exactly what it moved.
pub release_credits-IsBalanced :
    (input : ReleaseInput) (w : Wallet) (o : Wallet × WalletReleaseResult)
    → IsBalanced w
    → release_credits input w ≡ ok o
    → IsBalanced o.0
      × (o.0.balance_locked +ℤ o.0.balance_withdrawable
          ≡ w.balance_locked +ℤ w.balance_withdrawable)
      × (o.0.balance_withdrawable ≡ w.balance_withdrawable +ℤ o.1.released_amount)
unfolding release_credits
release_credits-IsBalanced input w o b h =
    let (r, e, k) = then_do-eq-ok (release_loop input w.transactions (fresh_tally w)) _ h in
    let m = release_loop-Moved input w.transactions (fresh_tally w) r b.positive e in
    let q : settle w r ≡ o = cc k in
    rw (← q) (settle-IsBalanced w r b m, m.total, omega (int_laws, parts_of_eq m.reported))

-- One call of a method that changes a wallet, with the ids that it draws.
pub data Call : Type 0 where
  credit_call : String → CreditLockedInput → Call
  withdraw_call : String → WithdrawInput → Call
  release_call : ReleaseInput → Call

abbrev pub wallet_of : Wallet → Result (Wallet × WalletReleaseResult) → Wallet
wallet_of w (ok (w', _)) = w'
wallet_of w (err _) = w

abbrev pub settled : Wallet → Result Wallet → Wallet
settled w (ok w') = w'
settled w (err _) = w

-- A call that throws leaves the wallet as it was.
unfoldable pub run_call : Call → Wallet → Wallet
run_call (Call.credit_call id input) w = settled w (credit_locked id input w)
run_call (Call.withdraw_call id input) w = settled w (withdraw id input w)
run_call (Call.release_call input) w = wallet_of w (release_credits input w)

unfoldable pub run_calls : List Call → Wallet → Wallet
run_calls [] w = w
run_calls (c ∷ cs) w = run_calls cs (run_call c w)

run_call-IsBalanced : (c : Call) (w : Wallet) → IsBalanced w → IsBalanced (run_call c w)
unfolding run_call
run_call-IsBalanced (Call.credit_call id input) w b = go (credit_locked id input w) refl
  where
    go : (r : Result Wallet) → credit_locked id input w ≡ r → IsBalanced (settled w r)
    go (ok w') e = credit_locked-IsBalanced id input w b e
    go (err _) e = b
run_call-IsBalanced (Call.withdraw_call id input) w b = go (withdraw id input w) refl
  where
    go : (r : Result Wallet) → withdraw id input w ≡ r → IsBalanced (settled w r)
    go (ok w') e = withdraw-IsBalanced id input w b e
    go (err _) e = b
run_call-IsBalanced (Call.release_call input) w b = go (release_credits input w) refl
  where
    go :
        (r : Result (Wallet × WalletReleaseResult))
        → release_credits input w ≡ r
        → IsBalanced (wallet_of w r)
    go (ok (w', res)) e = (release_credits-IsBalanced input w (w', res) b e).0
    go (err _) e = b

run_calls-IsBalanced : (cs : List Call) (w : Wallet) → IsBalanced w → IsBalanced (run_calls cs w)
unfolding run_calls
run_calls-IsBalanced [] w b = b
run_calls-IsBalanced (c ∷ cs) w b =
    run_calls-IsBalanced cs (run_call c w) (run_call-IsBalanced c w b)

-- After any history of credits, withdrawals and releases, in any order and with refused calls among
-- them, a booster's wallet is balanced: the locked balance is the sum of the credits not yet
-- released, the withdrawable one the sum of the released credits less the withdrawals, and the
-- withdrawable one is never negative.
pub history-IsBalanced :
    (booster : String) (cs : List Call) → IsBalanced (run_calls cs (create booster))
history-IsBalanced booster cs = run_calls-IsBalanced cs (create booster) (create-IsBalanced booster)
