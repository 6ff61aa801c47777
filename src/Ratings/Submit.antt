-- ===== src/Ratings/Submit.antt =====
-- apps/api/src/modules/ratings: the entity, the use cases and the repository. A score that is no
-- integer is `none`; an average is kept as its sum and its count, so that its rounding does not show.
use elonew.Base.{
  ℕ, suc, ◌+◌, ◌*◌, ◌-◌, String, Bool, true, false, not, ◌&&◌, ◌||◌, List, [], ◌∷◌, Option, none,
  some, same, holds_text, truthy, or_else, is_some, if◌then◌else◌, ltb, leb, Dict, lookup, insert,
}
use elonew.Base.Int.{ℤ, pos, negsuc, ltb_ℤ}
use elonew.Common.Errors.{
  Result, ok, err, invalid_rating_score, rating_not_allowed, rating_order_not_found,
  order_not_ratable, rating_window_closed, rating_already_submitted,
}
use elonew.Common.Action.{Action, ◌>>=◌, ◌>>◌, gets, attempt, or_throw, throw_if}
use elonew.Orders.Status.{OrderStatus, is_status}
use elonew.Tickets.Entity.{Role, client, booster, admin}

-- `Rating`, `RatingRecord` and `RatingResponse`
pub record Rating : Type 0 where
  pub id : String
  pub order_id : String
  pub from_user_id : String
  pub to_user_id : String
  pub score : ℤ
  pub comment : Option String
  pub created_at : ℕ

pub record RatableOrder : Type 0 where
  pub id : String
  pub client_id : Option String
  pub booster_id : Option String
  pub status : OrderStatus
  pub completed_at : Option ℕ

-- `_avg`: the sum of the scores over their number.
pub record Average : Type 0 where
  pub sum : ℕ
  pub number : ℕ

-- The tables: the orders, the ratings in the order of their writing, the latest first, and the
-- reputation of each profile by the id of its user.
pub record Board : Type 0 where
  pub orders : Dict RatableOrder
  pub ratings : List Rating
  pub reputations : Dict Average

abbrev pub min_score : ℤ
min_score = pos 1

abbrev pub max_score : ℤ
max_score = pos 5

-- `Rating.create`
unfoldable pub create :
    String → String → String → String → Option ℤ → Option String → ℕ → Result Rating
create id order_id from_user_id to_user_id none comment now = err invalid_rating_score
create id order_id from_user_id to_user_id (some score) comment now =
    if ltb_ℤ score min_score || ltb_ℤ max_score score
    then err invalid_rating_score
    else (if same from_user_id to_user_id
        then err rating_not_allowed
        else ok (record {
          id = id;
          order_id = order_id;
          from_user_id = from_user_id;
          to_user_id = to_user_id;
          score = score;
          comment = comment;
          created_at = now;
        }))

abbrev pub is_of : String → String → Rating → Bool
is_of order_id from_user_id r = same r.order_id order_id && same r.from_user_id from_user_id

unfoldable pub find_rating : (Rating → Bool) → List Rating → Option Rating
find_rating p [] = none
find_rating p (r ∷ rs) = if p r then some r else find_rating p rs

unfoldable pub find_by_order_and_rater : String → String → Action Board (Option Rating)
find_by_order_and_rater order_id from_user_id =
    gets (λ b. find_rating (is_of order_id from_user_id) b.ratings)

-- A score as the sum reads it: it is between one and five.
abbrev pub points : ℤ → ℕ
points (pos n) = n
points (negsuc n) = 0

-- `aggregate({ where: { toUserId }, _avg: { score: true } })`
unfoldable pub average_of : String → List Rating → Average
average_of user [] = record { sum = 0; number = 0 }
average_of user (r ∷ rs) =
    let rest = average_of user rs in
    if same r.to_user_id user
    then record { sum = points r.score + rest.sum; number = suc rest.number }
    else rest

abbrev pub update_reputation : String → Average → Dict Average → Dict Average
update_reputation user average d = if is_some (lookup user d) then insert user average d else d

-- `PrismaRatingRepository.save`: one transaction; a second rating of one order by one user violates
-- the unique columns.
unfoldable pub save : Rating → Action Board Rating
save r b =
    if is_some (find_rating (is_of r.order_id r.from_user_id) b.ratings)
    then (err rating_already_submitted, b)
    else (let ratings = r ∷ b.ratings in
        (
          ok r,
          record b {
            ratings = ratings;
            reputations =
                update_reputation r.to_user_id (average_of r.to_user_id ratings) b.reputations;
          },
        ))

-- `resolveCounterparty`
unfoldable pub resolve_counterparty : RatableOrder → String → Result String
resolve_counterparty order rater =
    if holds_text order.client_id rater && truthy order.booster_id
    then ok (or_else order.booster_id "")
    else (if holds_text order.booster_id rater && truthy order.client_id
        then ok (or_else order.client_id "")
        else err rating_not_allowed)

-- `RATING_WINDOW_DAYS * DAY_IN_MS`
abbrev pub rating_window_ms : ℕ
rating_window_ms = 14 * (24 * 60 * 60 * 1000)

-- `assertWithinWindow`
unfoldable pub assert_within_window : Option ℕ → ℕ → Result (Unit {0})
assert_within_window none now = err rating_window_closed
assert_within_window (some at) now =
    if ltb rating_window_ms (now - at) then err rating_window_closed else ok tt

-- submit-rating.use-case.ts
unfoldable pub submit_rating :
    String → String → String → Option ℤ → Option String → ℕ → Action Board Rating
unfolding find_by_order_and_rater save
submit_rating id rater order_id score comment now = do
  found ← gets (λ b. lookup order_id b.orders)
  order ← or_throw found rating_order_not_found
  throw_if (not (is_status order.status OrderStatus.completed)) order_not_ratable
  to_user ← attempt (resolve_counterparty order rater)
  attempt (assert_within_window order.completed_at now)
  existing ← find_by_order_and_rater order_id rater
  throw_if (is_some existing) rating_already_submitted
  rating ← attempt (create id order_id rater to_user score comment now)
  save rating

abbrev pub is_party : String → RatableOrder → Bool
is_party user order = holds_text order.client_id user || holds_text order.booster_id user

abbrev pub is_admin : Role → Bool
is_admin admin = true
is_admin client = false
is_admin booster = false

unfoldable pub list_for_order : String → List Rating → List Rating
list_for_order order_id [] = []
list_for_order order_id (r ∷ rs) =
    let rest = list_for_order order_id rs in if same r.order_id order_id then r ∷ rest else rest

-- `orderBy: { createdAt: 'asc' }`; ratings of one time come in the order of the table.
unfoldable pub insert_by_creation : Rating → List Rating → List Rating
insert_by_creation r [] = r ∷ []
insert_by_creation r (q ∷ qs) =
    if leb r.created_at q.created_at then r ∷ q ∷ qs else q ∷ insert_by_creation r qs

unfoldable pub sort_by_creation : List Rating → List Rating
sort_by_creation [] = []
sort_by_creation (r ∷ rs) = insert_by_creation r (sort_by_creation rs)

-- get-order-ratings.use-case.ts
unfoldable pub get_order_ratings : String → String → Role → Action Board (List Rating)
get_order_ratings order_id requester role = do
  found ← gets (λ b. lookup order_id b.orders)
  order ← or_throw found rating_order_not_found
  throw_if (not (is_admin role) && not (is_party requester order)) rating_not_allowed
  gets (λ b. sort_by_creation (list_for_order order_id b.ratings))
