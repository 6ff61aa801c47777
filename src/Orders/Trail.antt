-- ===== src/Orders/Trail.antt =====
-- The status of an order as a machine of its own, and the way that leads to a completed order.
-- Code: apps/api/src/modules/orders/domain/order.entity.ts
use elonew.Base.{Bool, true, false, List, [], ◌∷◌, ◌≡◌, refl, sym, ◌∙◌, arith, if◌then◌else◌}
use elonew.Orders.Status.{
  OrderStatus, awaiting_payment, pending_booster, in_progress, completed, cancelled,
}
use elonew.Orders.Entity.{
  Order, confirm_payment, reject_by_booster, accept_by_booster, assign_booster,
  clear_booster_assignment, complete, cancel, set_credentials, clear_credentials,
}
use elonew.Orders.Lifecycle.{Call, run_call, settled, run_calls}

-- Where a call takes the status; any other call leaves it.
abbrev pub next_status : Call → OrderStatus → OrderStatus
next_status Call.confirm_call awaiting_payment = pending_booster
next_status (Call.accept_call _) pending_booster = in_progress
next_status (Call.complete_call _) in_progress = completed
next_status Call.cancel_call awaiting_payment = cancelled
next_status Call.cancel_call pending_booster = cancelled
next_status _ s = s

pub run_statuses : List Call → OrderStatus → OrderStatus
run_statuses [] s = s
run_statuses (c ∷ cs) s = run_statuses cs (next_status c s)

settled-next_status :
    (c : Call) (o : Order) → (settled o (run_call c o)).status ≡ next_status c o.status
unfolding run_call confirm_payment reject_by_booster accept_by_booster assign_booster
    clear_booster_assignment complete cancel set_credentials clear_credentials
settled-next_status Call.reject_call o = ground arith
settled-next_status c o = ground arith

-- The status of an order after any calls is what the status machine computes from its first status:
-- the data of the order never decides it.
pub run_calls-status :
    (cs : List Call) (o : Order) → (run_calls cs o).status ≡ run_statuses cs o.status
unfolding run_calls run_statuses
run_calls-status [] o = refl
run_calls-status (c ∷ cs) o =
    rw (← settled-next_status c o) (run_calls-status cs (settled o (run_call c o)))

-- The tests pass one after the other on calls in the order of the list, other calls in between.
pub trail : List (Call → Bool) → List Call → Bool
trail [] cs = true
trail (p ∷ ps) [] = false
trail (p ∷ ps) (c ∷ cs) = trail (if p c then ps else p ∷ ps) cs

abbrev pub is_confirm : Call → Bool
is_confirm Call.confirm_call = true
is_confirm _ = false

abbrev pub is_accept : Call → Bool
is_accept (Call.accept_call _) = true
is_accept _ = false

abbrev pub is_complete : Call → Bool
is_complete (Call.complete_call _) = true
is_complete _ = false

-- What is left to do until an order is completed; a cancelled order has no way.
abbrev way : OrderStatus → List (Call → Bool)
way awaiting_payment = is_confirm ∷ is_accept ∷ is_complete ∷ []
way pending_booster = is_accept ∷ is_complete ∷ []
way in_progress = is_complete ∷ []
way completed = []
way cancelled = (λ _. false) ∷ []

cancelled_stays : (cs : List Call) → run_statuses cs cancelled ≡ cancelled
unfolding run_statuses
cancelled_stays [] = refl
cancelled_stays (Call.confirm_call ∷ cs) = cancelled_stays cs
cancelled_stays (c ∷ cs) = cancelled_stays cs

run_statuses-way :
    (cs : List Call) (s : OrderStatus) → run_statuses cs s ≡ completed → trail (way s) cs ≡ true
unfolding run_statuses trail
run_statuses-way [] s h = ground arith
run_statuses-way (c ∷ cs) s h =
    ground (arith, run_statuses-way cs (next_status c s) h, cancelled_stays cs)

-- An order that waits for payment and ends up completed has been paid, then accepted by a booster,
-- then completed, in this order.
pub completed_needs_trail :
    (cs : List Call) (o : Order)
    → o.status ≡ awaiting_payment
    → (run_calls cs o).status ≡ completed
    → trail (is_confirm ∷ is_accept ∷ is_complete ∷ []) cs ≡ true
completed_needs_trail cs o a h =
    let at_end : run_statuses cs o.status ≡ completed = sym (run_calls-status cs o) ∙ h in
    rw a at (run_statuses-way cs o.status at_end)
