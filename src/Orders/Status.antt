-- ===== src/Orders/Status.antt =====
-- apps/api/src/modules/orders/domain/order-status.ts
use elonew.Base.{Bool, true, false}

pub data OrderStatus : Type 0 where
  awaiting_payment pending_booster in_progress completed cancelled : OrderStatus

-- `a === b`
abbrev pub is_status : OrderStatus → OrderStatus → Bool
is_status OrderStatus.awaiting_payment OrderStatus.awaiting_payment = true
is_status OrderStatus.pending_booster OrderStatus.pending_booster = true
is_status OrderStatus.in_progress OrderStatus.in_progress = true
is_status OrderStatus.completed OrderStatus.completed = true
is_status OrderStatus.cancelled OrderStatus.cancelled = true
is_status _ _ = false
