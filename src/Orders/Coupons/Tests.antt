-- ===== src/Orders/Coupons/Tests.antt =====
-- Runs of the administration of coupons, and the theorems about them at concrete inputs.
-- Code: apps/api/src/modules/orders/infrastructure/repositories/prisma-coupon-admin.repository.ts
use elonew.Base.{◌*◌, false, some, none, [], ◌∷◌, ◌≡◌, refl, lookup}
use elonew.Base.Int.{pos}
use elonew.Common.Errors.{ok, err, order_coupon_invalid, inactive, coupon_code_already_exists}
use elonew.Money.Double.{double_of}
use elonew.Orders.CheckoutTests.{plain, lookups, tenth_off, asked}
use elonew.Orders.Coupon.{apply}
use elonew.Orders.Coupons.{
  CreateCouponInput, CouponRow, Coupons, generate_coupon_code, generate_from, find_by_code,
  create_coupon, disable_coupon, lookup_of,
}
use elonew.Orders.Coupons.Effects.{
  UniqueCodes, start, after, make, disable, codes_stay_unique, disabled_is_refused,
}
use elonew.Orders.Eligibility.{fixed_discount}

generated : generate_coupon_code (λ i. i * 3) ≡ "ADGJMPSVY1"
unfolding generate_coupon_code generate_from
generated = refl

abbrev row : CouponRow
row = record { code = "TENTH"; coupon = tenth_off }

abbrev coupons : Coupons
coupons = record { coupons = ("c1", row) ∷ []; events = [] }

abbrev five_off : CreateCouponInput
five_off = record {
  code = some "FIVE";
  discount_type = fixed_discount;
  discount = double_of 5;
  first_order_only = false;
  allowed_service_types = [];
  allowed_queues = [];
  allowed_emails = [];
  min_subtotal = some (pos 1000);
  max_subtotal = none;
  min_rank = some ("gold", "IV");
  max_rank = none;
  min_extras_count = none;
  required_extra = none;
  global_usage_limit = none;
  per_user_usage_limit = none;
}

twice :
    (create_coupon plain
      (λ _ i. i)
      "c2"
      (record (five_off) { code = some "TENTH" })
      "root"
      coupons).0
    ≡ err coupon_code_already_exists
unfolding create_coupon find_by_code
twice = refl

codes_stay_unique_example :
    UniqueCodes
      (disable_coupon "c1" "root"
        (create_coupon plain (λ _ i. i) "c2" five_off "root" coupons).1).1.coupons
unfolding UniqueCodes lookup
codes_stay_unique_example =
    codes_stay_unique
      (after (after start (make coupons plain (λ _ i. i) "c2" five_off "root" refl))
        (disable _ "c1" "root"))
      (tt, tt)

disabled_is_refused_example :
    ((disable_coupon "c1" "root" coupons).0 ≡ ok tt)
    × ((apply plain (lookup_of lookups (disable_coupon "c1" "root" coupons).1) asked).0
        ≡ err (order_coupon_invalid inactive))
unfolding UniqueCodes lookup
disabled_is_refused_example =
    disabled_is_refused plain lookups asked "c1" "root" coupons {r = row} (tt, tt) refl refl refl
