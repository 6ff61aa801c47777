-- ===== src/Payments/Status.antt =====
-- apps/api/src/modules/payments/domain/payment-status.ts
use elonew.Base.{Bool, true, false}

pub data PaymentStatus : Type 0 where
  awaiting_confirmation held released failed : PaymentStatus

-- `a === b`
abbrev pub is_payment_status : PaymentStatus → PaymentStatus → Bool
is_payment_status awaiting_confirmation awaiting_confirmation = true
is_payment_status held held = true
is_payment_status released released = true
is_payment_status failed failed = true
is_payment_status _ _ = false
