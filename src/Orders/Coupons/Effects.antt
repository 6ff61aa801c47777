-- ===== src/Orders/Coupons/Effects.antt =====
-- What the administration of coupons keeps, and what a checkout sees of it.
-- Code: apps/api/src/modules/orders/infrastructure/repositories/prisma-coupon-admin.repository.ts,
-- apps/api/src/modules/orders/application/services/order-coupon.service.ts
use elonew.Base.{
  ℕ, zero, suc, String, Bool, true, false, [], ◌∷◌, Option, none, some, same, is_some, truthy,
  or_else, inl, inr, ◌≡◌, ◌≢◌, refl, sym, ap, ◌∙◌, arith, eq_iff, eq_refl, Bool-cases, Option-cases,
  Dict, lookup, insert, Rows, insert-Rows, lookup-Rows, lookup-insert_self, if◌then◌else◌,
}
use elonew.Common.Errors.{ok, err, order_coupon_invalid, inactive, Result-cases}
use elonew.Orders.Coupon.{CouponLookup, ApplyOrderCouponInput, apply, check_coupon, reject}
use elonew.Orders.Coupons.{
  CouponRow, Coupons, CouponAdminEventType, CreateCouponInput, find_by_code, exists_by_code,
  draw_code, resolve_code, create_row, create_coupon, with_active, is_active_now, set_active,
  set_existing, disable_coupon, enable_coupon, lookup_of, generate_coupon_code, stored_coupon,
}
use elonew.Orders.Eligibility.{StoredCoupon}
use elonew.Orders.PricingVersion.{Texts}

-- No two coupons have the same code.
unfoldable pub UniqueCodes : Dict CouponRow → Type 0
UniqueCodes [] = Unit
UniqueCodes ((k, r) ∷ d) = Rows (λ s. s.code ≢ r.code) d × UniqueCodes d

-- A row of the table is the one that its code leads to.
pub find_by_code-row :
    (id : String) (d : Dict CouponRow) {r : CouponRow}
    → UniqueCodes d
    → lookup id d ≡ some r
    → find_by_code r.code d ≡ some r.coupon
unfolding UniqueCodes find_by_code lookup
find_by_code-row id [] unique found = cc found
find_by_code-row id ((k, s) ∷ d) {r} unique found = elim (Bool-cases (same k id)) [
  | inl hit ↦
      let e : s ≡ r = ground arith in
      rw (ap (λ (x : CouponRow). x.code) e, eq_refl r.code)
        (ap (λ (x : CouponRow). some x.coupon) e)
  | inr miss ↦
      let below : lookup id d ≡ some r = ground arith in
      let differs : r.code ≢ s.code = lookup-Rows (λ x. x.code ≢ s.code) id d unique.0 below in
      ground (arith, eq_iff s.code r.code, find_by_code-row id d {r = r} unique.1 below)
]

insert_own-UniqueCodes :
    (id : String) (r' : CouponRow) (d : Dict CouponRow) {r : CouponRow}
    → lookup id d ≡ some r
    → r'.code ≡ r.code
    → UniqueCodes d
    → UniqueCodes (insert id r' d)
unfolding UniqueCodes lookup insert
insert_own-UniqueCodes id r' [] found e unique = cc found
insert_own-UniqueCodes id r' ((k, s) ∷ d) {r} found e unique = elim (Bool-cases (same k id)) [
  | inl hit ↦
      let own : s ≡ r = ground arith in
      let code : s.code ≡ r'.code = ap (λ (x : CouponRow). x.code) own ∙ sym e in
      rw (hit, ← code) unique
  | inr miss ↦
      let below : lookup id d ≡ some r = ground arith in
      let differs : r.code ≢ s.code = lookup-Rows (λ x. x.code ≢ s.code) id d unique.0 below in
      rw miss (
        insert-Rows (λ x. x.code ≢ s.code) id r' d (λ q. differs (sym e ∙ q)) unique.0,
        insert_own-UniqueCodes id r' d {r = r} below e unique.1,
      )
]

insert_new-UniqueCodes :
    (id : String) (r : CouponRow) (d : Dict CouponRow)
    → lookup id d ≡ none
    → is_some (find_by_code r.code d) ≡ false
    → UniqueCodes d
    → UniqueCodes (insert id r d)
unfolding UniqueCodes lookup insert find_by_code
insert_new-UniqueCodes id r [] fresh free unique = (tt, tt)
insert_new-UniqueCodes id r ((k, s) ∷ d) fresh free unique = elim (Bool-cases (same k id)) [
  | inl hit ↦ absurd (ground arith)
  | inr miss ↦ rw miss (
    insert-Rows (λ x. x.code ≢ s.code) id r d (ground (arith, eq_iff s.code r.code)) unique.0,
    insert_new-UniqueCodes id r d (ground arith) (ground (arith, eq_iff s.code r.code)) unique.1,
  )
]

draw_code-free :
    (random_int : ℕ → ℕ → ℕ) (n attempt : ℕ) (c : Coupons) {text : String}
    → draw_code random_int n attempt c ≡ ok text
    → exists_by_code text c ≡ false
unfolding draw_code
draw_code-free random_int zero attempt c drawn = cc drawn
draw_code-free random_int (suc n) attempt c {text} drawn =
    elim (Bool-cases (exists_by_code (generate_coupon_code (random_int attempt)) c)) [
      | inl taken ↦ draw_code-free random_int n (suc attempt) c {text = text} (ground arith)
      | inr free ↦ ground arith
    ]

-- A code that is resolved is no coupon's yet.
resolve_code-free :
    (texts : Texts) (random_int : ℕ → ℕ → ℕ) (given : Option String) (c : Coupons) {text : String}
    → resolve_code texts random_int given c ≡ ok text
    → exists_by_code text c ≡ false
unfolding resolve_code
resolve_code-free texts random_int given c {text} resolved = elim (Bool-cases (truthy given)) [
  | inl named ↦ ground arith
  | inr unnamed ↦ draw_code-free random_int 10 0 c {text = text} (ground arith)
]

set_existing-missing :
    (b : Bool) (type : CouponAdminEventType) (id admin : String) (c : Coupons)
    → lookup id c.coupons ≡ none
    → (set_existing b type id admin c).1 ≡ c
unfolding set_existing
set_existing-missing b type id admin c missing = ground arith

set_existing-found :
    (b : Bool) (type : CouponAdminEventType) (id admin : String) (c : Coupons) {r : CouponRow}
    → lookup id c.coupons ≡ some r
    → ((set_existing b type id admin c).0 ≡ ok tt)
      × ((set_existing b type id admin c).1.coupons
          ≡ (if is_active_now b r then c.coupons else insert id (with_active b r) c.coupons))
unfolding set_existing set_active
set_existing-found b type id admin c found = ground arith

with_active-same :
    (b : Bool) (r : CouponRow) → is_active_now b r ≡ true → (with_active b r).coupon ≡ r.coupon
with_active-same b r already = ground arith

set_existing-UniqueCodes :
    (b : Bool) (type : CouponAdminEventType) (id admin : String) (c : Coupons)
    → UniqueCodes c.coupons
    → UniqueCodes (set_existing b type id admin c).1.coupons
set_existing-UniqueCodes b type id admin c unique = elim (Option-cases (lookup id c.coupons)) [
  | inl missing ↦ rw (set_existing-missing b type id admin c missing) unique
  | inr (r, found) ↦
      rw ((set_existing-found b type id admin c found).1) (elim (Bool-cases (is_active_now b r)) [
        | inl already ↦ rw already unique
        | inr other ↦
            rw other
              (insert_own-UniqueCodes id (with_active b r) c.coupons {r = r} found refl unique)
      ])
]

create-UniqueCodes :
    (texts : Texts) (random_int : ℕ → ℕ → ℕ) (id : String) (input : CreateCouponInput)
    (admin : String) (c : Coupons)
    → lookup id c.coupons ≡ none
    → UniqueCodes c.coupons
    → UniqueCodes (create_coupon texts random_int id input admin c).1.coupons
unfolding create_coupon create_row
create-UniqueCodes texts random_int id input admin c fresh unique =
    elim (Result-cases (resolve_code texts random_int input.code c)) [
      | inr (e, refused) ↦ rw (create_coupon, refused) unique
      | inl (text, resolved) ↦
          rw (create_coupon, resolved)
            (insert_new-UniqueCodes id
              (record { code = text; coupon = stored_coupon texts id input }) c.coupons fresh
              (resolve_code-free texts random_int input.code c resolved) unique)
    ]

-- What an administrator does to the coupons; a new coupon is given an id that none has.
pub data Change : Coupons → Coupons → Type 0 where
  make :
      (c : Coupons) (texts : Texts) (random_int : ℕ → ℕ → ℕ) (id : String)
      (input : CreateCouponInput) (admin : String)
      → lookup id c.coupons ≡ none
      → Change c (create_coupon texts random_int id input admin c).1
  disable : (c : Coupons) (id admin : String) → Change c (disable_coupon id admin c).1
  enable : (c : Coupons) (id admin : String) → Change c (enable_coupon id admin c).1

pub data Changes (c : Coupons) : Coupons → Type 0 where
  start : Changes c c
  after : {d e : Coupons} → Changes c d → Change d e → Changes c e

-- Whatever administrators create, disable and enable, in any order, no two coupons ever have the same
-- code.
pub codes_stay_unique :
    {c d : Coupons} → Changes c d → UniqueCodes c.coupons → UniqueCodes d.coupons
unfolding disable_coupon enable_coupon
codes_stay_unique start unique = unique
codes_stay_unique (after cs (make c texts random_int id input admin fresh)) unique =
    create-UniqueCodes texts random_int id input admin c fresh (codes_stay_unique cs unique)
codes_stay_unique (after cs (disable c id admin)) unique =
    set_existing-UniqueCodes false _ id admin c (codes_stay_unique cs unique)
codes_stay_unique (after cs (enable c id admin)) unique =
    set_existing-UniqueCodes true _ id admin c (codes_stay_unique cs unique)

-- What is stored under the code after a coupon was switched off or on.
switched :
    (b : Bool) (type : CouponAdminEventType) (id admin : String) (c : Coupons) {r : CouponRow}
    → UniqueCodes c.coupons
    → lookup id c.coupons ≡ some r
    → find_by_code r.code (set_existing b type id admin c).1.coupons ≡ some (with_active b r).coupon
switched b type id admin c {r} unique found =
    rw ((set_existing-found b type id admin c found).1) (elim (Bool-cases (is_active_now b r)) [
      | inl already ↦ rw already (
          find_by_code-row id c.coupons {r = r} unique found
          ∙ sym (ap (λ (x : StoredCoupon). some x) (with_active-same b r already)))
      | inr other ↦ rw other (
          find_by_code-row id (insert id (with_active b r) c.coupons) {r = with_active b r}
            (insert_own-UniqueCodes id (with_active b r) c.coupons {r = r} found refl unique)
            (lookup-insert_self id (with_active b r) c.coupons))
    ])

-- A coupon that an administrator has disabled is refused at the next checkout that names its code,
-- whatever the order, the client and the other lookups are.
pub disabled_is_refused :
    (texts : Texts) (look : CouponLookup) (input : ApplyOrderCouponInput) (id admin : String)
    (c : Coupons) {r : CouponRow}
    → UniqueCodes c.coupons
    → lookup id c.coupons ≡ some r
    → truthy input.coupon_code ≡ true
    → texts.upper (or_else input.coupon_code "") ≡ r.code
    → ((disable_coupon id admin c).0 ≡ ok tt)
      × ((apply texts (lookup_of look (disable_coupon id admin c).1) input).0
          ≡ err (order_coupon_invalid inactive))
unfolding disable_coupon apply check_coupon reject
disabled_is_refused texts look input id admin c {r} unique found named code = (
  (set_existing-found false _ id admin c found).0,
  rw (apply, named, code, switched false _ id admin c {r = r} unique found) refl,
)
