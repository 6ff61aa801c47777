-- ===== src/Wallet/Ledger.antt =====
-- The balances of a wallet against the sums of its transactions.
-- Code: apps/api/src/modules/wallet/domain/wallet.entity.ts
use elonew.Base.{
  ◌+◌, true, false, not, ◌&&◌, List, [], ◌∷◌, ◌++◌, ◌≡◌, refl, ◌⊎◌, inl, inr, arith, All,
  Bool-cases, is_some, if◌then◌else◌,
}
use elonew.Base.Int.{ℤ, pos, ◌+ℤ◌, ◌-ℤ◌, ◌≤ℤ◌, ◌<ℤ◌, parts_of_eq, int_laws}
use elonew.Common.Errors.{ok, err, invalid_money, then_do-eq-ok}
use elonew.Money.Amount.{from_cents, add, subtract}
use elonew.Wallet.Entity.{
  Wallet, WalletTransaction, ReleaseInput, Tally, is_credit, add_cents, subtract_cents,
  is_releasable, release_amount, release_loop, released_transaction,
}

-- What a transaction adds to the locked balance.
abbrev pub locked_part : WalletTransaction → ℤ
locked_part t = if is_credit t.type && not (is_some t.released_at) then t.amount else pos 0

-- What a transaction adds to the withdrawable balance.
abbrev pub free_part : WalletTransaction → ℤ
free_part t =
    if is_credit t.type
    then if is_some t.released_at then t.amount else pos 0
    else pos 0 -ℤ t.amount

unfoldable pub sum : (WalletTransaction → ℤ) → List WalletTransaction → ℤ
sum f [] = pos 0
sum f (t ∷ ts) = f t +ℤ sum f ts

abbrev pub IsPositive : WalletTransaction → Type 0
IsPositive t = pos 0 <ℤ t.amount

-- The balances are what the transactions add up to, and neither is overdrawn.
pub record IsBalanced (w : Wallet) : Type 0 where
  pub locked : w.balance_locked ≡ sum locked_part w.transactions
  pub withdrawable : w.balance_withdrawable ≡ sum free_part w.transactions
  pub positive : All IsPositive w.transactions
  pub covered : pos 0 ≤ℤ w.balance_withdrawable

-- A sum of cents is exact, or throws.
pub add_cents-cases :
    (a b : ℤ) → (add_cents a b ≡ ok (a +ℤ b)) ⊎ (add_cents a b ≡ err invalid_money)
unfolding add_cents from_cents add
add_cents-cases a b = ground arith

pub subtract_cents-cases :
    (a b : ℤ) → (subtract_cents a b ≡ ok (a -ℤ b)) ⊎ (subtract_cents a b ≡ err invalid_money)
unfolding subtract_cents from_cents subtract
subtract_cents-cases a b = ground arith

pub release_amount-eq :
    (x : ℤ) (s : Tally) {s' : Tally}
    → release_amount x s ≡ ok s'
    → s' ≡ record {
      locked = s.locked -ℤ x;
      withdrawable = s.withdrawable +ℤ x;
      released_amount = s.released_amount +ℤ x;
      released_count = s.released_count + 1;
    }
unfolding release_amount
release_amount-eq x s h = ground (
  arith,
  subtract_cents-cases s.locked x,
  add_cents-cases s.withdrawable x,
  add_cents-cases s.released_amount x,
)

pub sum-append :
    (f : WalletTransaction → ℤ) (ts us : List WalletTransaction)
    → sum f (ts ++ us) ≡ sum f ts +ℤ sum f us
unfolding sum
sum-append f [] us = omega int_laws
sum-append f (t ∷ ts) us = rw (sum-append f ts us) (omega int_laws)

-- How the loop over the transactions changes them to their sums, and to the balances alike.
pub record Moved (ts us : List WalletTransaction) (s s' : Tally) : Type 0 where
  pub locked : s'.locked +ℤ sum locked_part ts ≡ s.locked +ℤ sum locked_part us
  pub withdrawable : s'.withdrawable +ℤ sum free_part ts ≡ s.withdrawable +ℤ sum free_part us
  pub total : s'.locked +ℤ s'.withdrawable ≡ s.locked +ℤ s.withdrawable
  pub reported : s'.withdrawable +ℤ s.released_amount ≡ s.withdrawable +ℤ s'.released_amount
  pub grown : s.withdrawable ≤ℤ s'.withdrawable
  pub positive : All IsPositive us

stay-Moved : (s : Tally) → Moved [] [] s s
unfolding sum
stay-Moved s = record {
  locked = refl;
  withdrawable = refl;
  total = refl;
  reported = refl;
  grown = omega arith;
  positive = tt;
}

keep-Moved :
    (t : WalletTransaction) {ts us : List WalletTransaction} {s s' : Tally}
    → IsPositive t
    → Moved ts us s s'
    → Moved (t ∷ ts) (t ∷ us) s s'
unfolding sum
keep-Moved t p m = record {
  locked = omega (int_laws, parts_of_eq m.locked);
  withdrawable = omega (int_laws, parts_of_eq m.withdrawable);
  total = m.total;
  reported = m.reported;
  grown = m.grown;
  positive = (p, m.positive);
}

-- A releasable transaction is a locked credit; released, it is a free one.
releasable_parts :
    (input : ReleaseInput) (t : WalletTransaction)
    → is_releasable input t ≡ true
    → (locked_part t ≡ t.amount)
      × (free_part t ≡ pos 0)
      × (locked_part (released_transaction input t) ≡ pos 0)
      × (free_part (released_transaction input t) ≡ t.amount)
unfolding is_releasable
releasable_parts input t r = ground arith

release-Moved :
    (input : ReleaseInput) (t : WalletTransaction) {ts us : List WalletTransaction} {s s' : Tally}
    → IsPositive t
    → is_releasable input t ≡ true
    → Moved ts us
        (record {
          locked = s.locked -ℤ t.amount;
          withdrawable = s.withdrawable +ℤ t.amount;
          released_amount = s.released_amount +ℤ t.amount;
          released_count = s.released_count + 1;
        })
        s'
    → Moved (t ∷ ts) (released_transaction input t ∷ us) s s'
unfolding sum
release-Moved input t p r m =
    let parts = releasable_parts input t r in
    record {
      locked = rw (parts.0, parts.2) (omega (int_laws, parts_of_eq m.locked));
      withdrawable = rw (parts.1, parts.3) (omega (int_laws, parts_of_eq m.withdrawable));
      total = omega (int_laws, parts_of_eq m.total);
      reported = omega (int_laws, parts_of_eq m.reported);
      grown = omega (int_laws, m.grown);
      positive = (p, m.positive);
    }

abbrev pub after_release : WalletTransaction → Tally → Tally
after_release t s = record {
  locked = s.locked -ℤ t.amount;
  withdrawable = s.withdrawable +ℤ t.amount;
  released_amount = s.released_amount +ℤ t.amount;
  released_count = s.released_count + 1;
}

-- One round of the loop, if the loop succeeds.
pub data Round (input : ReleaseInput) (t : WalletTransaction) (ts : List WalletTransaction)
    (s : Tally) (r : Tally × List WalletTransaction) : Type 0 where
  releases :
      (o : Tally × List WalletTransaction)
      → is_releasable input t ≡ true
      → release_loop input ts (after_release t s) ≡ ok o
      → r ≡ (o.0, released_transaction input t ∷ o.1)
      → Round input t ts s r
  keeps :
      (o : Tally × List WalletTransaction)
      → is_releasable input t ≡ false
      → release_loop input ts s ≡ ok o
      → r ≡ (o.0, t ∷ o.1)
      → Round input t ts s r

pub release_loop-Round :
    (input : ReleaseInput) (t : WalletTransaction) (ts : List WalletTransaction) (s : Tally)
    (r : Tally × List WalletTransaction)
    → release_loop input (t ∷ ts) s ≡ ok r
    → Round input t ts s r
unfolding release_loop
release_loop-Round input t ts s r h = elim (Bool-cases (is_releasable input t)) [
  | inl yes_it ↦
      let (s₁, e₁, k) =
        then_do-eq-ok (release_amount t.amount s) _ (rw (yes_it, release_loop) at h) in
      let (o, e₂, e₃) = then_do-eq-ok (release_loop input ts s₁) _ k in
      Round.releases o yes_it (rw (← release_amount-eq t.amount s e₁) e₂) (cc e₃)
  | inr no_it ↦
      let (o, e₂, e₃) = then_do-eq-ok (release_loop input ts s) _ (rw (no_it, release_loop) at h) in
      Round.keeps o no_it e₂ (cc e₃)
]

pub release_loop-nil :
    (input : ReleaseInput) (s : Tally) {r : Tally × List WalletTransaction}
    → release_loop input [] s ≡ ok r
    → r ≡ (s, [])
unfolding release_loop
release_loop-nil input s h = cc h

pub release_loop-Moved :
    (input : ReleaseInput) (ts : List WalletTransaction) (s : Tally)
    (r : Tally × List WalletTransaction)
    → All IsPositive ts
    → release_loop input ts s ≡ ok r
    → Moved ts r.1 s r.0
release_loop-Moved input [] s r p h = rw (release_loop-nil input s h) (stay-Moved s)
release_loop-Moved input (t ∷ ts) s r (p, ps) h = elim (release_loop-Round input t ts s r h) [
  | Round.releases o y e q ↦
      rw q (release-Moved input t p y (release_loop-Moved input ts (after_release t s) o ps e))
  | Round.keeps o n e q ↦ rw q (keep-Moved t p (release_loop-Moved input ts s o ps e))
]
