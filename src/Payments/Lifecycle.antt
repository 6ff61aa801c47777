-- ===== src/Payments/Lifecycle.antt =====
-- The life of a payment, and the booster's part of what was paid.
-- Code: apps/api/src/modules/payments/domain/payment.entity.ts
use elonew.Base.{
  ℕ, ◌+◌, ◌*◌, ◌^◌, ◌≤◌, ◌<◌, String, Bool, true, false, List, [], ◌∷◌, ◌≡◌, ◌≢◌, ◌⊎◌, arith, none,
  refl,
}
use elonew.Base.Int.{ℤ, ◌≤ℤ◌, pos}
use elonew.Common.Errors.{Result, ok, err, is_ok, payment_amount_invalid}
use elonew.Money.Share.{from_cents_pos, percentage-share_of, share_of, share_of_near}
use elonew.Orders.Status.{OrderStatus, completed}
use elonew.Payments.Status.{PaymentStatus, awaiting_confirmation, held, released, failed}
use elonew.Payments.Entity.{
  Payment, PaymentMethod, GatewayDetails, create, booster_share, attach_gateway_details, confirm,
  fail, release_hold,
}

booster_share-share_of : (n : ℕ) → n ≤ 2 ^ 49 → booster_share (pos n) ≡ ok (pos (share_of n))
unfolding booster_share
booster_share-share_of n h = ground (arith, from_cents_pos n, percentage-share_of n h)

-- `create` refuses an amount that is not positive.
create_refuses :
    (id order : String) (gross : ℤ) (m : PaymentMethod)
    → gross ≤ℤ pos 0
    → create id order gross m ≡ err payment_amount_invalid
unfolding create
create_refuses id order gross m h = ground arith

abbrev paid : String → String → ℕ → PaymentMethod → Payment
paid id order gross m = record {
  id = id;
  order_id = order;
  gross_amount = pos gross;
  booster_amount = pos (share_of gross);
  payment_method = m;
  gateway_reference_id = none;
  gateway_id = none;
  gateway_status = none;
  gateway_status_detail = none;
  gateway_payment_method_id = none;
  gateway_payment_type_id = none;
  checkout_url = none;
  status = awaiting_confirmation;
}

-- For a positive amount of up to 2 ^ 49 cents a payment is created: it awaits confirmation, and the
-- booster's part is positive, at most the amount, and within half a cent of seven tenths of it.
pub create_amounts :
    (id order : String) (gross : ℕ) (m : PaymentMethod)
    → 0 < gross
    → gross ≤ 2 ^ 49
    → (p : Payment) × (share : ℕ) × (create id order (pos gross) m ≡ ok p)
      × (p.status ≡ awaiting_confirmation)
      × (p.gross_amount ≡ pos gross)
      × (p.booster_amount ≡ pos share)
      × (0 < share)
      × (share ≤ gross)
      × (10 * share ≤ 7 * gross + 5)
      × (7 * gross ≤ 10 * share + 5)
unfolding create
create_amounts id order gross m pg h =
    let b = booster_share-share_of gross h in
    let near = share_of_near gross h in
    (
      paid id order gross m,
      share_of gross,
      ground (arith, b),
      refl,
      refl,
      refl,
      omega (arith, near),
      omega (arith, near),
      near.0,
      near.1,
    )

pub data Call : Type 0 where
  confirm_call fail_call : Call
  release_call : OrderStatus → Call
  attach_call : GatewayDetails → Call

unfoldable pub run_call : Call → Payment → Result Payment
run_call Call.confirm_call p = confirm p
run_call Call.fail_call p = fail p
run_call (Call.release_call s) p = release_hold s p
run_call (Call.attach_call d) p = ok (attach_gateway_details d p)

-- A caller that catches the error keeps the payment that it had.
abbrev pub settled : Payment → Result Payment → Payment
settled p (ok p') = p'
settled p (err e) = p

unfoldable pub run_calls : List Call → Payment → Payment
run_calls [] p = p
run_calls (c ∷ cs) p = run_calls cs (settled p (run_call c p))

-- The diagram of a payment's life.
infix 40 ◌⟶◌
pub data ◌⟶◌ : PaymentStatus → PaymentStatus → Type 0 where
  hold : awaiting_confirmation ⟶ held
  expire : awaiting_confirmation ⟶ failed
  release : held ⟶ released

ruleset edges = (hold, expire, release)

-- A call that succeeds keeps the status or follows an edge of the diagram, never changes the
-- payment's identity and amounts, and leads to `released` only if the order is completed.
pub payment_call-⟶ :
    (c : Call) (p : Payment) {p' : Payment}
    → run_call c p ≡ ok p'
    → ((p'.status ≡ p.status) ⊎ (p.status ⟶ p'.status))
      × (p'.id ≡ p.id)
      × (p'.order_id ≡ p.order_id)
      × (p'.gross_amount ≡ p.gross_amount)
      × (p'.booster_amount ≡ p.booster_amount)
      × ((p'.status ≢ released) ⊎ (p.status ≡ released) ⊎ (c ≡ Call.release_call completed))
unfolding run_call confirm fail release_hold attach_gateway_details
payment_call-⟶ Call.confirm_call p h = grind (arith, edges)
payment_call-⟶ c p h = grind (arith, edges)

-- Which calls fail, by the payment's status alone.
abbrev pub accepts : Call → PaymentStatus → Bool
accepts Call.confirm_call failed = false
accepts Call.fail_call held = false
accepts Call.fail_call released = false
accepts (Call.release_call _) released = true
accepts (Call.release_call completed) held = true
accepts (Call.release_call _) _ = false
accepts _ _ = true

-- A call succeeds exactly when the table above says so: confirming and failing may be repeated, and
-- neither undoes the other.
pub payment_call-accepts : (c : Call) (p : Payment) → is_ok (run_call c p) ≡ accepts c p.status
unfolding run_call confirm fail release_hold attach_gateway_details
payment_call-accepts Call.confirm_call p = ground arith
payment_call-accepts (Call.release_call completed) p = ground arith
payment_call-accepts c p = ground arith

-- A call that is repeated at once changes nothing more: webhooks are delivered several times.
pub payment_call_idem : (c : Call) (p : Payment) → run_calls (c ∷ c ∷ []) p ≡ run_calls (c ∷ []) p
unfolding run_calls run_call confirm fail release_hold attach_gateway_details
payment_call_idem Call.confirm_call p = ground arith
payment_call_idem c p = ground arith
