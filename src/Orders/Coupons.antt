-- ===== src/Orders/Coupons.antt =====
-- The administration of coupons: the use cases create-coupon, enable-coupon and disable-coupon of
-- apps/api/src/modules/orders/application/use-cases, their
-- infrastructure/repositories/prisma-coupon-admin.repository.ts, and the codes of
-- packages/shared/src/coupons/coupon.ts. New ids and random numbers are arguments; the log is left out.
pub mod Codes
pub mod Effects
mod Tests
use elonew.Base.{
  ℕ, zero, suc, ◌+◌, String, Bool, true, false, not, ◌&&◌, ◌||◌, List, [], ◌∷◌, Option, none, some,
  same, is_some, leb, length, truthy, or_else, if◌then◌else◌, Dict, lookup, insert,
}
use elonew.Base.Int.{ℤ}
use elonew.Common.Errors.{
  Result, ok, err, coupon_not_found, coupon_code_already_exists, plain_error,
}
use elonew.Common.Action.{Action, ◌>>=◌, ◌>>◌, pure, gets, modify, attempt, or_throw, throw_if}
use elonew.Money.Double.{Double}
use elonew.Orders.Coupon.{CouponLookup}
use elonew.Orders.Eligibility.{CouponDiscountType, StoredCoupon, find_order_rank_index}
use elonew.Orders.Entity.{OrderServiceType}
use elonew.Orders.PricingVersion.{Texts}
use Prim.Native.Char.{Char, code}
use Prim.Native.String.{◌++◌}
use text.Mathlib.Text.{char_at?}

-- The three types that the administration writes.
pub data CouponAdminEventType : Type 0 where
  created disabled enabled : CouponAdminEventType

pub record CouponAdminEvent : Type 0 where
  pub type : CouponAdminEventType
  pub code : String
  pub coupon_id : String
  pub reason : String

-- The row of a coupon, without its times.
pub record CouponRow : Type 0 where
  pub code : String
  pub coupon : StoredCoupon

pub record Coupons : Type 0 where
  pub coupons : Dict CouponRow
  pub events : List CouponAdminEvent

-- `normalizeCouponCode` is `texts.upper`. The code points of a text:
abbrev pub codes : String → List ℕ
codes String.[] = []
codes (String.◌∷◌ c s) = code c ∷ codes s

abbrev pub is_code_char : ℕ → Bool
is_code_char c = leb b'A' c && leb c b'Z' || leb b'0' c && leb c b'9'

unfoldable pub all_code_chars : List ℕ → Bool
all_code_chars [] = true
all_code_chars (c ∷ cs) = is_code_char c && all_code_chars cs

-- `isValidCouponCode`
unfoldable pub is_valid_coupon_code : String → Bool
is_valid_coupon_code text =
    leb 4 (length (codes text)) && leb (length (codes text)) 24 && all_code_chars (codes text)

abbrev pub generated_code_alphabet : String
generated_code_alphabet = "ABCDEFGHIJKLMNOPQRSTUVWXYZ0123456789"

-- `code += GENERATED_CODE_ALPHABET[i]`, before the rest: a missing character would be `undefined`.
unfoldable pub with_char : Option Char → String → String
with_char none rest = "undefined" ++ rest
with_char (some c) rest = String.◌∷◌ c rest

-- The rounds of the loop from the `i`th on.
unfoldable pub generate_from : (ℕ → ℕ) → ℕ → ℕ → String
unfolding with_char
generate_from random_int zero i = ""
generate_from random_int (suc n) i =
    with_char (char_at? generated_code_alphabet (random_int i)) (generate_from random_int n (suc i))

-- `generateCouponCode`
unfoldable pub generate_coupon_code : (ℕ → ℕ) → String
generate_coupon_code random_int = generate_from random_int 10 0

-- The lookups by the unique `code` and by the id.
unfoldable pub find_by_code : String → Dict CouponRow → Option StoredCoupon
find_by_code text [] = none
find_by_code text ((k, r) ∷ d) = if same r.code text then some r.coupon else find_by_code text d

abbrev pub exists_by_code : String → Coupons → Bool
exists_by_code text c = is_some (find_by_code text c.coupons)

-- `CreateCouponInput`; the discount has passed the schema, which wants it positive.
pub record CreateCouponInput : Type 0 where
  pub code : Option String
  pub discount_type : CouponDiscountType
  pub discount : Double
  pub first_order_only : Bool
  pub allowed_service_types : List OrderServiceType
  pub allowed_queues : List String
  pub allowed_emails : List String
  pub min_subtotal : Option ℤ
  pub max_subtotal : Option ℤ
  pub min_rank : Option (String × String)
  pub max_rank : Option (String × String)
  pub min_extras_count : Option ℕ
  pub required_extra : Option String
  pub global_usage_limit : Option ℕ
  pub per_user_usage_limit : Option ℕ

-- The loop over the attempts that are left, each with its own random numbers.
unfoldable pub draw_code : (ℕ → ℕ → ℕ) → ℕ → ℕ → Coupons → Result String
draw_code random_int zero attempt c = err coupon_code_already_exists
draw_code random_int (suc n) attempt c =
    let rest = draw_code random_int n (suc attempt) c in
    if exists_by_code (generate_coupon_code (random_int attempt)) c
    then rest
    else ok (generate_coupon_code (random_int attempt))

-- `resolveCode`
unfoldable pub resolve_code : Texts → (ℕ → ℕ → ℕ) → Option String → Coupons → Result String
resolve_code texts random_int given c =
    if truthy given
    then if exists_by_code (texts.upper (or_else given "")) c
      then err coupon_code_already_exists
      else ok (texts.upper (or_else given ""))
    else draw_code random_int 10 0 c

abbrev pub rank_index_of : Texts → Option (String × String) → Option ℤ
rank_index_of texts none = none
rank_index_of texts (some (league, division)) = some (find_order_rank_index texts league division)

abbrev pub stored_coupon : Texts → String → CreateCouponInput → StoredCoupon
stored_coupon texts id input = record {
  id = id;
  discount_type = input.discount_type;
  discount = some input.discount;
  is_active = true;
  first_order_only = input.first_order_only;
  allowed_service_types = input.allowed_service_types;
  allowed_queues = input.allowed_queues;
  allowed_emails = input.allowed_emails;
  min_subtotal = input.min_subtotal;
  max_subtotal = input.max_subtotal;
  min_rank_index = rank_index_of texts input.min_rank;
  max_rank_index = rank_index_of texts input.max_rank;
  min_extras_count = input.min_extras_count;
  required_extra = input.required_extra;
  global_usage_limit = input.global_usage_limit;
  per_user_usage_limit = input.per_user_usage_limit;
}

abbrev pub write_event : CouponAdminEventType → String → String → String → Coupons → Coupons
write_event type text id admin c = record c {
  events = record { type = type; code = text; coupon_id = id; reason = admin } ∷ c.events;
}

-- `create` of the repository
unfoldable pub create_row : String → String → StoredCoupon → Coupons → Coupons
create_row text admin coupon c =
    write_event created text coupon.id admin
      (record c { coupons = insert coupon.id (record { code = text; coupon = coupon }) c.coupons })

-- create-coupon.use-case.ts; it answers the id and the code.
unfoldable pub create_coupon :
    Texts → (ℕ → ℕ → ℕ) → String → CreateCouponInput → String → Action Coupons (String × String)
unfolding resolve_code create_row
create_coupon texts random_int id input admin c =
    elim (resolve_code texts random_int input.code c) [
      | err e ↦ (err e, c)
      | ok text ↦ (ok (id, text), create_row text admin (stored_coupon texts id input) c)
    ]

abbrev pub with_active : Bool → CouponRow → CouponRow
with_active b r = record r { coupon = record (r.coupon) { is_active = b } }

abbrev pub is_active_now : Bool → CouponRow → Bool
is_active_now b r = if b then r.coupon.is_active else not r.coupon.is_active

-- `disable` and `enable` of the repository: the row is written if its flag is not the new one yet.
unfoldable pub set_active : Bool → CouponAdminEventType → String → String → Coupons → Bool × Coupons
set_active b type id admin c = elim (lookup id c.coupons) [
  | none ↦ (false, c)
  | some r ↦ if is_active_now b r then (false, c) else (
    true,
    write_event type r.code id admin (record c { coupons = insert id (with_active b r) c.coupons }),
  )
]

unfoldable pub set_existing :
    Bool → CouponAdminEventType → String → String → Action Coupons (Unit {0})
unfolding set_active
set_existing b type id admin c =
    if is_some (lookup id c.coupons)
    then (ok tt, (set_active b type id admin c).1)
    else (err coupon_not_found, c)

-- disable-coupon.use-case.ts and enable-coupon.use-case.ts
unfoldable pub disable_coupon : String → String → Action Coupons (Unit {0})
unfolding set_existing
disable_coupon id admin c = set_existing false disabled id admin c

unfoldable pub enable_coupon : String → String → Action Coupons (Unit {0})
unfolding set_existing
enable_coupon id admin c = set_existing true enabled id admin c

-- What the checkout reads of a coupon: the code leads to this table.
abbrev pub lookup_of : CouponLookup → Coupons → CouponLookup
lookup_of look c = record look { find_by_code = λ text. find_by_code text c.coupons }
