-- ===== src/Orders/Quote.antt =====
-- A quote's row: `QuoteRecord` of
-- apps/api/src/modules/orders/infrastructure/repositories/prisma-order-checkout.repository.ts
use elonew.Base.{ℕ, String, List, Option}
use elonew.Base.Int.{ℤ}
use elonew.Orders.Entity.{OrderServiceType, OrderPricedExtra}

pub record OrderQuote : Type 0 where
  pub id : String
  pub client_id : String
  pub coupon_id : Option String
  pub pricing_version_id : String
  pub service_type : OrderServiceType
  pub summoner_name : Option String
  pub current_league : String
  pub current_division : String
  pub current_lp : ℕ
  pub desired_league : String
  pub desired_division : String
  pub server : String
  pub desired_queue : String
  pub lp_gain : ℕ
  pub subtotal : ℤ
  pub total_amount : ℤ
  pub discount_amount : ℤ
  pub extras : List OrderPricedExtra
  pub expires_at : ℕ
  pub consumed_at : Option ℕ
  pub order_id : Option String
