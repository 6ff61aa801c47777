-- ===== src/Ratings/Tests.antt =====
-- Runs of the ratings, and the theorems at concrete inputs.
-- Code: apps/api/src/modules/ratings
use elonew.Base.{[], ◌∷◌, none, some, ◌≡◌, refl, lookup}
use elonew.Base.Int.{pos}
use elonew.Orders.Status.{OrderStatus}
use elonew.Ratings.Submit.{RatableOrder, Board, Rating, average_of, submit_rating}
use elonew.Ratings.Reputation.{reputation_is_average}

abbrev finished : RatableOrder
finished = record {
  id = "o1";
  client_id = some "ann";
  booster_id = some "bob";
  status = OrderStatus.completed;
  completed_at = some 1000;
}

abbrev board : Board
board = record {
  orders = ("o1", finished) ∷ [];
  ratings = [];
  reputations = ("bob", record { sum = 0; number = 0 }) ∷ [];
}

abbrev four_points : Rating
four_points = record {
  id = "r1";
  order_id = "o1";
  from_user_id = "ann";
  to_user_id = "bob";
  score = pos 4;
  comment = none;
  created_at = 2000;
}

reputation_is_average_example :
    let b' = (submit_rating "r1" "ann" "o1" (some (pos 4)) none 2000 board).1 in
    lookup "bob" b'.reputations ≡ some (average_of "bob" b'.ratings)
unfolding lookup average_of
reputation_is_average_example =
    reputation_is_average "bob" "r1" "ann" "o1" (some (pos 4)) none 2000 board refl
