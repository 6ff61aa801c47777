-- ===== src/Orders/Tests.antt =====
-- Runs of the order model, and the theorems at concrete inputs.
-- Code: apps/api/src/modules/orders/domain, apps/api/src/modules/orders/application/use-cases
use elonew.Base.{true, List, [], ◌∷◌, none, some, ◌≡◌, refl, arith, eq_iff}
use elonew.Base.Int.{pos}
use elonew.Orders.Status.{awaiting_payment, pending_booster, in_progress, completed}
use elonew.Orders.Entity.{
  Order, OrderPricedExtra, DraftPricing, create_draft, has_credentials, complete, cancel,
  accept_by_booster, assign_booster, set_credentials, confirm_payment,
}
use mathlib.Core.List.{Permᴰ}
use elonew.Common.Errors.{ok}
use elonew.Orders.PricingVersion.{is_order_extra_type}
use elonew.Orders.Lifecycle.{Call, run_call, run_calls, Inv, draft-Inv}
use elonew.Orders.Trail.{
  run_statuses, trail, is_confirm, is_accept, is_complete, run_calls-status, completed_needs_trail,
}
use elonew.Orders.Repository.{order_of, map_order_from_record, save_with_client}
use elonew.Orders.Repository.Saved.{IsComplete, save_round_trip}
use elonew.Payments.Status.{held, awaiting_confirmation}
use elonew.Platform.Samples.{secret, gold_to_diamond, row, world}
use elonew.Platform.World.{World}

abbrev prices : DraftPricing
prices = record {
  subtotal = pos 10000;
  total_amount = pos 10000;
  discount_amount = pos 0;
  extras = [];
}

abbrev draft : Order
draft = create_draft "o1" "ann" none none "v1" gold_to_diamond prices

-- Paid, given credentials, accepted, cancelled too late, and completed.
abbrev story : List Call
story =
    Call.complete_call 1
    ∷ Call.confirm_call
    ∷ Call.credentials_call secret
    ∷ Call.assign_call "bob"
    ∷ Call.accept_call 50
    ∷ Call.cancel_call
    ∷ Call.complete_call 7
    ∷ []

story_ends : (run_calls story draft).status ≡ completed
unfolding run_calls run_call complete cancel accept_by_booster assign_booster set_credentials
    confirm_payment create_draft
story_ends = refl

draft-Inv_example :
    Inv (run_calls story (create_draft "o1" "ann" none none "v1" gold_to_diamond prices))
draft-Inv_example = draft-Inv "o1" "ann" none none "v1" gold_to_diamond prices story

run_calls-status_example : (run_calls story draft).status ≡ run_statuses story draft.status
run_calls-status_example = run_calls-status story draft

completed_needs_trail_example : trail (is_confirm ∷ is_accept ∷ is_complete ∷ []) story ≡ true
unfolding create_draft
completed_needs_trail_example = completed_needs_trail story draft refl story_ends

abbrev ended : Order
ended = order_of (record (row completed (some "bob") none) { completed_at = some 7 }) []

abbrev sealed : Order
sealed = record (draft) { status = pending_booster; pending_credentials = some secret }

gold_to_diamond-IsComplete : IsComplete gold_to_diamond
gold_to_diamond-IsComplete = record {
  current_league = ground (arith, eq_iff "gold" "");
  current_division = ground (arith, eq_iff "II" "");
  desired_league = ground (arith, eq_iff "diamond" "");
  desired_division = ground (arith, eq_iff "IV" "");
  server = ground (arith, eq_iff "br" "");
  desired_queue = ground (arith, eq_iff "solo" "");
}

-- Two extras, which the query answers in the other order.
abbrev one_extra : OrderPricedExtra
one_extra = record { type = "priority_service"; price = pos 500 }

abbrev other_extra : OrderPricedExtra
other_extra = record { type = "online_stream"; price = pos 700 }

abbrev with_extras : Order
with_extras = record (sealed) { extras = one_extra ∷ other_extra ∷ [] }

save_round_trip_example :
    map_order_from_record
      (record (save_with_client with_extras none) { extras = other_extra ∷ one_extra ∷ [] })
    ≡ ok (record (with_extras) {
      pending_credentials = none;
      stored_credentials = has_credentials with_extras;
      extras = other_extra ∷ one_extra ∷ [];
    })
unfolding create_draft is_order_extra_type save_with_client
save_round_trip_example =
    save_round_trip with_extras none (other_extra ∷ one_extra ∷ []) gold_to_diamond-IsComplete
      (refl, (refl, tt)) refl (Permᴰ.swap refl refl)

abbrev working : World
working = world (row in_progress (some "bob") (some secret)) held

abbrev queued : World
queued = world (row pending_booster none (some secret)) held

abbrev unpaid : World
unpaid = world (row awaiting_payment none none) awaiting_confirmation

abbrev two_orders : World
two_orders = record (working) {
  orders =
      ("o1", row in_progress (some "bob") (some secret))
      ∷ ("o2", row pending_booster none none)
      ∷ [];
}
