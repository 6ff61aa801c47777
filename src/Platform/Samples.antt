-- ===== src/Platform/Samples.antt =====
-- Small states to run the model on.
use elonew.Base.{String, [], ◌∷◌, Option, none, some}
use elonew.Base.Int.{pos}
use elonew.Common.Errors.{ok}
use elonew.Orders.Status.{OrderStatus}
use elonew.Orders.Entity.{OrderCredentials, OrderRequestDetails, elo_boost}
use elonew.Orders.Quote.{OrderQuote}
use elonew.Orders.Repository.{OrderRow, DetailsColumns}
use elonew.Payments.Entity.{Payment, pix}
use elonew.Payments.Gateway.{PaymentGateway, FetchPaymentNotificationOutput, WebhookInput}
use elonew.Payments.Status.{PaymentStatus}
use elonew.Platform.World.{World}

abbrev pub secret : OrderCredentials
secret = record { login = "login"; summoner_name = "name"; password = "pw" }

abbrev pub gold_to_diamond : OrderRequestDetails
gold_to_diamond = record {
  service_type = elo_boost;
  summoner_name = "name";
  current_league = "gold";
  current_division = "II";
  current_lp = 50;
  desired_league = "diamond";
  desired_division = "IV";
  server = "br";
  desired_queue = "solo";
  lp_gain = 20;
  deadline = none;
}

abbrev pub no_details : DetailsColumns
no_details = record {
  service_type = none;
  summoner_name = none;
  current_league = none;
  current_division = none;
  current_lp = none;
  desired_league = none;
  desired_division = none;
  server = none;
  desired_queue = none;
  lp_gain = none;
  deadline = none;
}

abbrev pub row : OrderStatus → Option String → Option OrderCredentials → OrderRow
row status booster credentials = record {
  id = "o1";
  client_id = some "ann";
  booster_id = booster;
  coupon_id = none;
  pricing_version_id = some "v1";
  status = status;
  details = no_details;
  subtotal = some (pos 10000);
  total_amount = some (pos 10000);
  discount_amount = pos 0;
  completed_at = none;
  extras = [];
  credentials = credentials;
}

abbrev pub payment : PaymentStatus → Payment
payment status = record {
  id = "p1";
  order_id = "o1";
  gross_amount = pos 10000;
  booster_amount = pos 7000;
  payment_method = pix;
  gateway_reference_id = none;
  gateway_id = none;
  gateway_status = none;
  gateway_status_detail = none;
  gateway_payment_method_id = none;
  gateway_payment_type_id = none;
  checkout_url = none;
  status = status;
}

abbrev pub quote : OrderQuote
quote = record {
  id = "q1";
  client_id = "ann";
  coupon_id = none;
  pricing_version_id = "v1";
  service_type = elo_boost;
  summoner_name = some "name";
  current_league = "gold";
  current_division = "II";
  current_lp = 50;
  desired_league = "diamond";
  desired_division = "IV";
  server = "br";
  desired_queue = "solo";
  lp_gain = 20;
  subtotal = pos 10000;
  total_amount = pos 10000;
  discount_amount = pos 0;
  extras = [];
  expires_at = 100;
  consumed_at = none;
  order_id = none;
}

abbrev pub world : OrderRow → PaymentStatus → World
world r status = record {
  quotes = ("q1", quote) ∷ [];
  orders = ("o1", r) ∷ [];
  rejections = [];
  payments = ("p1", payment status) ∷ [];
  processed_events = [];
  wallets = [];
  coupon_codes = [];
  first_order_only = [];
  emails = [];
  effects = [];
}

abbrev pub notification : String → FetchPaymentNotificationOutput
notification status = record {
  internal_payment_id = "p1";
  gateway_payment_id = "mp1";
  gateway_status = status;
  gateway_status_detail = none;
  gateway_payment_method_id = none;
  gateway_payment_type_id = none;
}

-- A provider that starts every payment, and answers this status for every payment.
abbrev pub gateway : String → PaymentGateway
gateway status = record {
  initiate_payment = λ _. ok (record {
    checkout_url = "url";
    gateway_reference_id = "ref";
    gateway_status = some "pending";
  });
  fetch_payment_notification = λ _. ok (notification status);
  fetch_payment_by_external_reference = λ _. ok (some (notification status));
}

abbrev pub delivery : String → WebhookInput
delivery event = record {
  event_id = event;
  topic = "payment";
  notification_resource_id = "mp1";
  request_id = none;
  signature = none;
}
