-- ===== src/Ratings/Reputation.antt =====
-- Who may rate whom, once, and what the ratings make of a reputation.
-- Code: apps/api/src/modules/ratings
use elonew.Base.{
  ℕ, ◌-◌, ◌≤◌, String, true, false, ◌∷◌, Option, none, some, same, or_else, is_some, inl, inr, ◌⊎◌,
  ◌≡◌, ◌≢◌, refl, sym, ap, ◌∙◌, arith, eq_iff, Bool-cases, Option-cases, Dict, lookup,
  lookup-insert, lookup-insert_self,
}
use elonew.Base.Int.{ℤ, pos, ◌≤ℤ◌}
use elonew.Common.Errors.{DomainError, Result-cases, ok, err, is_ok}
use elonew.Orders.Status.{OrderStatus, is_status}
use elonew.Ratings.Submit.{
  Rating, RatableOrder, Board, Average, find_rating, is_of, average_of, update_reputation, create,
  save, resolve_counterparty, assert_within_window, rating_window_ms, submit_rating,
}

-- What an accepted rating is: of a completed order in its window, from one of its two sides to the
-- other, with one to five points, and the first of its giver.
pub record Accepted (b : Board) (rater order_id : String) (now : ℕ) (r : Rating) (o : RatableOrder)
    (at : ℕ) : Type 0 where
  pub order : lookup order_id b.orders ≡ some o
  pub status : o.status ≡ OrderStatus.completed
  pub completed_at : o.completed_at ≡ some at
  pub in_window : now - at ≤ rating_window_ms
  pub giver : r.from_user_id ≡ rater
  pub on : r.order_id ≡ order_id
  pub sides :
      ((o.client_id ≡ some rater) × (o.booster_id ≡ some r.to_user_id))
      ⊎ ((o.booster_id ≡ some rater) × (o.client_id ≡ some r.to_user_id))
  pub apart : r.to_user_id ≢ rater
  pub low : pos 1 ≤ℤ r.score
  pub high : r.score ≤ℤ pos 5
  pub first : find_rating (is_of order_id rater) b.ratings ≡ none

create-returns :
    (id order_id rater to_user : String) (score : Option ℤ) (comment : Option String) (now : ℕ)
    {r : Rating}
    → create id order_id rater to_user score comment now ≡ ok r
    → (r.from_user_id ≡ rater)
      × (r.order_id ≡ order_id)
      × (r.to_user_id ≡ to_user)
      × (rater ≢ to_user)
      × (pos 1 ≤ℤ r.score)
      × (r.score ≤ℤ pos 5)
unfolding create
create-returns id order_id rater to_user none comment now returned = cc returned
create-returns id order_id rater to_user (some score) comment now returned =
    ground (arith, eq_iff rater to_user)

counterparty :
    (o : RatableOrder) (rater : String) {to_user : String}
    → resolve_counterparty o rater ≡ ok to_user
    → ((o.client_id ≡ some rater) × (o.booster_id ≡ some to_user))
      ⊎ ((o.booster_id ≡ some rater) × (o.client_id ≡ some to_user))
unfolding resolve_counterparty
counterparty o rater {to_user} returned =
    ground (arith, eq_iff (or_else o.client_id "") rater, eq_iff (or_else o.booster_id "") rater)

save-returns :
    (q : Rating) (b : Board) {r : Rating}
    → (save q b).0 ≡ ok r
    → (r ≡ q)
      × (find_rating (is_of q.order_id q.from_user_id) b.ratings ≡ none)
      × ((save q b).1 ≡ record b {
        ratings = q ∷ b.ratings;
        reputations =
            update_reputation q.to_user_id (average_of q.to_user_id (q ∷ b.ratings)) b.reputations;
      })
unfolding save
save-returns q b {r} returned =
    ground (arith, Option-cases (find_rating (is_of q.order_id q.from_user_id) b.ratings))

in_time : (at now : ℕ) → assert_within_window (some at) now ≡ ok tt → now - at ≤ rating_window_ms
unfolding assert_within_window
in_time at now returned = ground arith

pub submit_rating-Accepted :
    (id rater order_id : String) (score : Option ℤ) (comment : Option String) (now : ℕ) (b : Board)
    {r : Rating}
    → (submit_rating id rater order_id score comment now b).0 ≡ ok r
    → (o : RatableOrder) × (at : ℕ) × Accepted b rater order_id now r o at
      × ((submit_rating id rater order_id score comment now b).1 ≡ record b {
        ratings = r ∷ b.ratings;
        reputations =
            update_reputation r.to_user_id (average_of r.to_user_id (r ∷ b.ratings)) b.reputations;
      })
unfolding submit_rating save create resolve_counterparty assert_within_window
submit_rating-Accepted id rater order_id score comment now b {r} returned =
    elim (Option-cases (lookup order_id b.orders)) [
      | inl absent ↦ absurd (ground arith)
      | inr (o, order) ↦ elim (Bool-cases (is_status o.status OrderStatus.completed)) [
        | inr open_order ↦ absurd (ground arith)
        | inl done ↦ elim (Result-cases (resolve_counterparty o rater)) [
          | inr (e, outsider) ↦ absurd (ground arith)
          | inl (to_user, sides) ↦ elim (Option-cases o.completed_at) [
            | inl never ↦ absurd (ground arith)
            | inr (at, completed) ↦ elim (Result-cases (assert_within_window (some at) now)) [
              | inr (e, late) ↦ absurd (ground arith)
              | inl (t, soon) ↦ elim (Option-cases (find_rating (is_of order_id rater) b.ratings)) [
                | inr (q, again) ↦ absurd (ground arith)
                | inl first ↦
                    elim (Result-cases (create id order_id rater to_user score comment now)) [
                      | inr (e, bad) ↦ absurd (ground arith)
                      | inl (q, made) ↦
                          let saved : submit_rating id rater order_id score comment now b
                              ≡ save q b =
                            ground arith in
                          let (same_rating, fresh, written) =
                            save-returns q b (rw saved at returned) in
                          let (giver, on, to, apart, low, high) =
                            create-returns id order_id rater to_user score comment now made in
                          (
                            o,
                            at,
                            record {
                              order = order;
                              status = ground arith;
                              completed_at = completed;
                              in_window = in_time at now soon;
                              giver = rw (same_rating, giver) refl;
                              on = rw (same_rating, on) refl;
                              sides = rw (same_rating, to) (counterparty o rater sides);
                              apart = rw (same_rating, to) (λ e. apart (sym e));
                              low = rw same_rating low;
                              high = rw same_rating high;
                              first = first;
                            },
                            ground (arith, saved, written, same_rating),
                          )
                    ]
              ]
            ]
          ]
        ]
      ]
    ]

save-unchanged :
    (q : Rating) (b : Board) {e : DomainError} → (save q b).0 ≡ err e → (save q b).1 ≡ b
unfolding save
save-unchanged q b refused =
    ground (arith, Option-cases (find_rating (is_of q.order_id q.from_user_id) b.ratings))

-- A submission that is refused changes nothing.
pub submit_rating-unchanged :
    (id rater order_id : String) (score : Option ℤ) (comment : Option String) (now : ℕ) (b : Board)
    {e : DomainError}
    → (submit_rating id rater order_id score comment now b).0 ≡ err e
    → (submit_rating id rater order_id score comment now b).1 ≡ b
unfolding submit_rating
submit_rating-unchanged id rater order_id score comment now b refused =
    elim (Option-cases (lookup order_id b.orders)) [
      | inl absent ↦ ground arith
      | inr (o, order) ↦ elim (Result-cases (resolve_counterparty o rater)) [
        | inr (e, outsider) ↦ ground (arith, Bool-cases (is_status o.status OrderStatus.completed))
        | inl (to_user, sides) ↦ elim (Result-cases (assert_within_window o.completed_at now)) [
          | inr (e, late) ↦ ground (arith, Bool-cases (is_status o.status OrderStatus.completed))
          | inl (t, soon) ↦
              elim (Result-cases (create id order_id rater to_user score comment now)) [
                | inr (e, bad) ↦ ground (
                  arith,
                  Bool-cases (is_status o.status OrderStatus.completed),
                  Option-cases (find_rating (is_of order_id rater) b.ratings),
                )
                | inl (q, made) ↦ ground (
                  arith,
                  Bool-cases (is_status o.status OrderStatus.completed),
                  Option-cases (find_rating (is_of order_id rater) b.ratings),
                  save-unchanged q b,
                )
              ]
        ]
      ]
    ]

own_reputation :
    (user k : String) (average : Average) (d : Dict Average) {before : Average}
    → k ≡ user
    → lookup user d ≡ some before
    → lookup user (update_reputation k average d) ≡ some average
own_reputation user k average d own before = rw (own, before) (lookup-insert_self user average d)

reputation_after :
    (user : String) (r : Rating) (b : Board)
    → lookup user b.reputations ≡ some (average_of user b.ratings)
    → lookup user
        (update_reputation r.to_user_id (average_of r.to_user_id (r ∷ b.ratings)) b.reputations)
      ≡ some (average_of user (r ∷ b.ratings))
unfolding average_of
reputation_after user r b before = elim (Bool-cases (same r.to_user_id user)) [
  | inl own ↦
      let e = (eq_iff r.to_user_id user).0 own in
      own_reputation user r.to_user_id (average_of r.to_user_id (r ∷ b.ratings)) b.reputations e
        before
      ∙ ap (λ u. some (average_of u (r ∷ b.ratings))) e
  | inr other ↦ rw other (
      ground (
        arith,
        before,
        other,
        lookup-insert r.to_user_id user (average_of r.to_user_id (r ∷ b.ratings)) b.reputations,
      ))
]

-- A user rates an order once: after a rating that was accepted, no further one of this user on this
-- order is, whatever it holds and whenever it comes, and nothing changes.
pub rates_once :
    (id id' rater order_id : String) (score score' : Option ℤ) (comment comment' : Option String)
    (now later : ℕ) (b : Board) {r : Rating}
    → (submit_rating id rater order_id score comment now b).0 ≡ ok r
    → let b' = (submit_rating id rater order_id score comment now b).1 in
      (is_ok (submit_rating id' rater order_id score' comment' later b').0 ≡ false)
      × ((submit_rating id' rater order_id score' comment' later b').1 ≡ b')
unfolding find_rating
rates_once id id' rater order_id score score' comment comment' now later b {r} returned =
    let (o, at, accepted, written) =
      submit_rating-Accepted id rater order_id score comment now b returned in
    let b' = (submit_rating id rater order_id score comment now b).1 in
    let there : is_some (find_rating (is_of order_id rater) b'.ratings) ≡ true = rw written (
      ground (
        arith,
        accepted.on,
        accepted.giver,
        eq_iff r.order_id order_id,
        eq_iff r.from_user_id rater,
      )) in
    let second = submit_rating id' rater order_id score' comment' later b' in
    elim (Result-cases second.0) [
      | inl (q, again) ↦
          let (o', at', accepted', written') =
            submit_rating-Accepted id' rater order_id score' comment' later b' again in
          absurd (ground (arith, there, accepted'.first))
      | inr (e, refused) ↦ (
        rw refused refl,
        submit_rating-unchanged id' rater order_id score' comment' later b' refused,
      )
    ]

-- The reputation of a profile is the average of the ratings that its user has received, and stays so
-- whoever rates whom: this holds after a submission for each profile for which it held before, whether
-- the submission is accepted or not.
pub reputation_is_average :
    (user id rater order_id : String) (score : Option ℤ) (comment : Option String) (now : ℕ)
    (b : Board)
    → lookup user b.reputations ≡ some (average_of user b.ratings)
    → let b' = (submit_rating id rater order_id score comment now b).1 in
      lookup user b'.reputations ≡ some (average_of user b'.ratings)
reputation_is_average user id rater order_id score comment now b before =
    let after = submit_rating id rater order_id score comment now b in
    elim (Result-cases after.0) [
      | inr (e, refused) ↦
          rw (submit_rating-unchanged id rater order_id score comment now b refused) before
      | inl (r, returned) ↦
          let (o, at, accepted, written) =
            submit_rating-Accepted id rater order_id score comment now b returned in
          rw written (reputation_after user r b before)
    ]
