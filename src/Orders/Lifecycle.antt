-- ===== src/Orders/Lifecycle.antt =====
-- What the methods of an order do to its life: the transition diagram, the credentials of an order
-- that has ended, and what no sequence of calls can undo.
-- Code: apps/api/src/modules/orders/domain/order.entity.ts
use elonew.Base.{
  ℕ, String, Bool, true, false, List, [], ◌∷◌, Option, ◌≡◌, refl, ◌∙◌, ◌⊎◌, arith, is_some,
}
use elonew.Common.Errors.{Result, ok, err, is_ok}
use elonew.Orders.Status.{
  OrderStatus, awaiting_payment, pending_booster, in_progress, completed, cancelled, is_status,
}
use elonew.Orders.Entity.{
  Order, OrderCredentials, create_draft, DraftPricing, OrderRequestDetails, has_credentials,
  confirm_payment, reject_by_booster, accept_by_booster, assign_booster, clear_booster_assignment,
  complete, cancel, set_credentials, clear_credentials,
}

-- One call of a method that the class offers.
pub data Call : Type 0 where
  confirm_call reject_call unassign_call cancel_call clear_call : Call
  accept_call complete_call : ℕ → Call
  assign_call : String → Call
  credentials_call : OrderCredentials → Call

unfoldable pub run_call : Call → Order → Result Order
run_call Call.confirm_call o = confirm_payment o
run_call Call.reject_call o = reject_by_booster o
run_call Call.unassign_call o = ok (clear_booster_assignment o)
run_call Call.cancel_call o = cancel o
run_call Call.clear_call o = ok (clear_credentials o)
run_call (Call.accept_call deadline) o = accept_by_booster deadline o
run_call (Call.complete_call now) o = complete now o
run_call (Call.assign_call booster) o = ok (assign_booster booster o)
run_call (Call.credentials_call c) o = set_credentials c o

-- A caller that catches the error keeps the order that it had.
abbrev pub settled : Order → Result Order → Order
settled o (ok o') = o'
settled o (err e) = o

unfoldable pub run_calls : List Call → Order → Order
run_calls [] o = o
run_calls (c ∷ cs) o = run_calls cs (settled o (run_call c o))

-- The diagram of an order's life.
infix 40 ◌⟶◌
pub data ◌⟶◌ : OrderStatus → OrderStatus → Type 0 where
  pay : awaiting_payment ⟶ pending_booster
  abandon : awaiting_payment ⟶ cancelled
  take : pending_booster ⟶ in_progress
  call_off : pending_booster ⟶ cancelled
  finish : in_progress ⟶ completed

ruleset edges = (pay, abandon, take, call_off, finish)

-- Every call that succeeds keeps the status or follows an edge of the diagram.
pub run_call-⟶ :
    (c : Call) (o : Order) {o' : Order}
    → run_call c o ≡ ok o'
    → (o'.status ≡ o.status) ⊎ (o.status ⟶ o'.status)
unfolding run_call confirm_payment reject_by_booster accept_by_booster assign_booster
    clear_booster_assignment complete cancel set_credentials clear_credentials
run_call-⟶ Call.reject_call o h = grind (arith, edges)
run_call-⟶ c o h = grind (arith, edges)

-- Which calls an order accepts, by its status alone.
abbrev pub accepts : Call → OrderStatus → Bool
accepts Call.confirm_call awaiting_payment = true
accepts Call.reject_call pending_booster = true
accepts Call.cancel_call awaiting_payment = true
accepts Call.cancel_call pending_booster = true
accepts (Call.accept_call _) pending_booster = true
accepts (Call.complete_call _) in_progress = true
accepts (Call.credentials_call _) pending_booster = true
accepts (Call.credentials_call _) in_progress = true
accepts Call.unassign_call _ = true
accepts Call.clear_call _ = true
accepts (Call.assign_call _) _ = true
accepts _ _ = false

-- A call succeeds exactly when the table above has its method at the order's status.
pub run_call-accepts : (c : Call) (o : Order) → is_ok (run_call c o) ≡ accepts c o.status
unfolding run_call confirm_payment reject_by_booster accept_by_booster assign_booster
    clear_booster_assignment complete cancel set_credentials clear_credentials
run_call-accepts Call.reject_call o = ground arith
run_call-accepts c o = ground arith

-- What holds of an order between two calls: it has a completion date exactly when it is completed,
-- and credentials at most while a booster is awaited or works.
pub record Inv (o : Order) : Type 0 where
  pub dated : is_some o.completed_at ≡ is_status o.status completed
  pub guarded :
      (has_credentials o ≡ false) ⊎ (o.status ≡ pending_booster) ⊎ (o.status ≡ in_progress)

-- Every call that succeeds keeps the invariant.
pub run_call-Inv : (c : Call) (o : Order) {o' : Order} → Inv o → run_call c o ≡ ok o' → Inv o'
unfolding run_call confirm_payment reject_by_booster accept_by_booster assign_booster
    clear_booster_assignment complete cancel set_credentials clear_credentials
run_call-Inv Call.reject_call o i h = ground arith
run_call-Inv c o i h = ground arith

settled-Inv : (c : Call) (o : Order) → Inv o → Inv (settled o (run_call c o))
settled-Inv c o i = go (run_call c o) refl
  where
    go : (r : Result Order) → run_call c o ≡ r → Inv (settled o r)
    go (ok o') e = run_call-Inv c o i e
    go (err _) e = i

pub run_calls-Inv : (cs : List Call) (o : Order) → Inv o → Inv (run_calls cs o)
unfolding run_calls
run_calls-Inv [] o i = i
run_calls-Inv (c ∷ cs) o i = run_calls-Inv cs (settled o (run_call c o)) (settled-Inv c o i)

-- A draft order, after any calls at all: it has a completion date exactly when it is completed, and
-- holds credentials only between payment and its end.
pub draft-Inv :
    (id client : String) (booster coupon : Option String) (version : String)
    (d : OrderRequestDetails) (p : DraftPricing) (cs : List Call)
    → Inv (run_calls cs (create_draft id client booster coupon version d p))
unfolding create_draft
draft-Inv id client booster coupon version d p cs =
    run_calls-Inv cs (create_draft id client booster coupon version d p) (ground arith)

abbrev pub IsTerminal : OrderStatus → Type 0
IsTerminal s = (s ≡ completed) ⊎ (s ≡ cancelled)

settled_terminal :
    (c : Call) (o : Order)
    → IsTerminal o.status
    → Inv o
    → ((settled o (run_call c o)).status ≡ o.status)
      × ((settled o (run_call c o)).completed_at ≡ o.completed_at)
unfolding run_call confirm_payment reject_by_booster accept_by_booster assign_booster
    clear_booster_assignment complete cancel set_credentials clear_credentials
settled_terminal Call.reject_call o t i = ground arith
settled_terminal c o t i = ground arith

-- A completed or cancelled order stays so whatever is called: its status and its completion date do
-- not change, and it never holds credentials again.
pub terminal_absorbs :
    (cs : List Call) (o : Order)
    → IsTerminal o.status
    → Inv o
    → ((run_calls cs o).status ≡ o.status)
      × ((run_calls cs o).completed_at ≡ o.completed_at)
      × (has_credentials (run_calls cs o) ≡ false)
unfolding run_calls
terminal_absorbs [] o t i = ground arith
terminal_absorbs (c ∷ cs) o t i =
    let (s, d) = settled_terminal c o t i in
    let rest = terminal_absorbs cs (settled o (run_call c o)) (rw s t) (settled-Inv c o i) in
    (rest.0 ∙ s, rest.1 ∙ d, rest.2)
