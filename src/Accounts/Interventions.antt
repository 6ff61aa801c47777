-- ===== src/Accounts/Interventions.antt =====
-- The use cases of apps/api/src/modules/admin/application/use-cases on orders, over the tables of the
-- orders and the wallets. Their log lines are not kept.
use elonew.Base.{
  ℕ, String, ◌∷◌, none, some, ◌≡◌, arith, same, not, truthy, or_else, lookup, lookup-insert_self,
}
use elonew.Common.Errors.{
  ok, admin_governance_reason_required, admin_order_not_found, admin_order_not_completed,
  admin_order_booster_missing,
}
use elonew.Common.Action.{Action, ◌>>=◌, ◌>>◌, modify, attempt, or_throw, throw_if}
use elonew.Orders.Status.{completed, cancelled, is_status}
use elonew.Orders.Entity.{cancel}
use elonew.Orders.Repository.{OrderRow, map_order_from_record, save_with_client}
use elonew.Orders.Outcomes.{essentials}
use elonew.Orders.Ports.{find_by_id, save}
use elonew.Platform.World.{
  World, AdminOrderAction, order_force_cancel, order_booster_payment_release, order_action_recorded,
  emit,
}
use elonew.Wallet.UseCases.{force_release}
use elonew.Accounts.UseCases.{Services}

-- `recordAction`
unfoldable pub record_order_action : AdminOrderAction → Action World (Unit {0})
unfolding emit
record_order_action action = modify (emit (order_action_recorded action))

-- force-cancel-admin-order.use-case.ts
unfoldable pub force_cancel_admin_order :
    Services → String → String → String → ℕ → Action World (Unit {0})
unfolding find_by_id save record_order_action
force_cancel_admin_order v admin_id order_id reason now = do
  throw_if (same (v.trim reason) "") admin_governance_reason_required
  found ← find_by_id order_id
  order ← or_throw found admin_order_not_found
  closed ← attempt (cancel order)
  save closed
  record_order_action (record {
    admin_user_id = admin_id;
    action_type = order_force_cancel;
    reason = v.trim reason;
    target_order_id = closed.id;
    target_user_id = none;
    created_at = now;
  })

-- release-admin-order-booster-payment.use-case.ts
unfoldable pub release_admin_order_booster_payment :
    Services → String → String → String → ℕ → Action World (Unit {0})
unfolding find_by_id record_order_action
release_admin_order_booster_payment v admin_id order_id reason now = do
  throw_if (same (v.trim reason) "") admin_governance_reason_required
  found ← find_by_id order_id
  order ← or_throw found admin_order_not_found
  throw_if (not (is_status order.status completed)) admin_order_not_completed
  throw_if (not (truthy order.booster_id)) admin_order_booster_missing
  let booster = or_else order.booster_id ""
  _ ← force_release booster order.id now
  record_order_action (record {
    admin_user_id = admin_id;
    action_type = order_booster_payment_release;
    reason = v.trim reason;
    target_order_id = order.id;
    target_user_id = some booster;
    created_at = now;
  })

-- A forced cancellation that succeeds, of an order whose row stands under its id, leaves it cancelled
-- and without credentials, and sends nothing but the administrator's action.
pub force_cancel-closes :
    (v : Services) (admin_id reason : String) (now : ℕ) (w : World) {r : OrderRow}
    → lookup r.id w.orders ≡ some r
    → (force_cancel_admin_order v admin_id r.id reason now w).0 ≡ ok tt
    → let w' = (force_cancel_admin_order v admin_id r.id reason now w).1 in
      (essentials (lookup r.id w'.orders) ≡ some (cancelled, r.booster_id, none))
      × (w'.effects
          ≡ order_action_recorded (record {
            admin_user_id = admin_id;
            action_type = order_force_cancel;
            reason = v.trim reason;
            target_order_id = r.id;
            target_user_id = none;
            created_at = now;
          })
            ∷ w.effects)
unfolding force_cancel_admin_order cancel map_order_from_record save_with_client
force_cancel-closes v admin_id reason now w {r} found h =
    (grind (arith, lookup-insert_self), ground arith)
