-- ===== src/Platform/World.antt =====
-- What the use cases of the API read and write, through the ports and their Prisma adapters: the
-- tables as dictionaries under their primary keys, and everything sent to the outside as a list of
-- effects, the newest first. A port's call that the database serves at once is one step here.
use elonew.Base.{ℕ, String, List, ◌∷◌, Option, Dict}
use elonew.Orders.Repository.{OrderRow}
use elonew.Orders.Quote.{OrderQuote}
use elonew.Payments.Entity.{Payment}
use elonew.Wallet.Entity.{Wallet}

-- apps/api/src/modules/orders/application/ports/order-event-publisher.port.ts
pub data OrderEventType : Type 0 where
  order_paid order_credentials_saved order_accepted order_rejected order_completed order_cancelled :
      OrderEventType

-- `OrderEvent`, without its random id and the time of its making.
pub record OrderEvent : Type 0 where
  pub type : OrderEventType
  pub order_id : String
  pub client_id : Option String
  pub booster_id : Option String

-- The two emails of apps/api/src/modules/orders/application/services/order-lifecycle-email.service.ts
pub data OrderEmail : Type 0 where
  paid_email booster_assigned_email : OrderEmail

pub data AdminOrderActionType : Type 0 where
  order_force_cancel order_booster_payment_release : AdminOrderActionType

-- `AdminGovernanceActionInput` of an action on an order, without its list of changes
-- (apps/api/src/modules/admin/application/ports/admin-governance.repository.ts).
pub record AdminOrderAction : Type 0 where
  pub admin_user_id : String
  pub action_type : AdminOrderActionType
  pub reason : String
  pub target_order_id : String
  pub target_user_id : Option String
  pub created_at : ℕ

pub data Effect : Type 0 where
  event_published : OrderEvent → Effect
  chat_created : String → Effect
  email_sent : OrderEmail → String → String → Effect
  coupon_confirmed : String → String → Option String → String → Effect
  release_scheduled : String → String → ℕ → Effect
  governance_recorded : String → String → Effect
  credentials_revealed : String → String → Effect
  order_action_recorded : AdminOrderAction → Effect

pub record World : Type 0 where
  pub quotes : Dict OrderQuote
  pub orders : Dict OrderRow
  pub rejections : List (String × String)
  pub payments : Dict Payment
  pub processed_events : List String
  pub wallets : Dict Wallet
  -- the code of each coupon, by its id
  pub coupon_codes : Dict String
  -- the ids of the coupons for a first order only
  pub first_order_only : List String
  -- the email of each user, by its id
  pub emails : Dict String
  pub effects : List Effect

unfoldable pub emit : Effect → World → World
emit e w = record w { effects = e ∷ w.effects }
