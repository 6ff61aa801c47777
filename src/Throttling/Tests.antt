-- ===== src/Throttling/Tests.antt =====
-- Runs of the throttler, and the theorems at concrete inputs.
-- Code: apps/api/src/common/http
use elonew.Base.{
  IsMap, ℕ, ◌≤◌, String, true, false, List, [], ◌∷◌, none, some, ◌≡◌, refl, arith, eq_iff, lookup,
  insert,
}
use elonew.Throttling.Window.{increment, resolve_window, make_room}
use elonew.Throttling.Guard.{HttpRequest}
use elonew.Throttling.Isolation.{Request, serve, InOrder, answers_to, requests_of, answers_isolated}
use elonew.Throttling.Limit.{passed, limit_holds}
use elonew.Throttling.Retry.{serve_all, retry_passes}

-- A login route: two attempts in ten seconds.
abbrev login_attempt : String → ℕ → Request
login_attempt who now = record {
  key = who;
  ttl = 10000;
  limit = 2;
  block_duration = 10000;
  now = now;
}

abbrev traffic : List Request
traffic =
    login_attempt "ann" 1000
    ∷ login_attempt "bob" 1500
    ∷ login_attempt "ann" 2000
    ∷ login_attempt "ann" 3000
    ∷ login_attempt "bob" 3000
    ∷ login_attempt "ann" 4000
    ∷ []

-- Ann is refused from the third attempt on, and told to come back in ten seconds.
ann_refused : passed (answers_to "ann" traffic []) ≡ 2
unfolding passed answers_to increment resolve_window make_room lookup insert
ann_refused = refl

answers_isolated_example :
    answers_to "ann" traffic [] ≡ answers_to "ann" (requests_of "ann" traffic) []
unfolding InOrder IsMap lookup
answers_isolated_example = answers_isolated "ann" 0 traffic [] (ground arith) tt refl

limit_holds_example : passed (answers_to "ann" traffic []) ≤ 2
unfolding InOrder IsMap lookup requests_of
limit_holds_example = limit_holds "ann" 2 11000 0 traffic [] (ground arith) tt refl (ground arith)

retry_passes_example :
    let a =
      (serve
        (login_attempt "ann" 13000)
        (serve_all (login_attempt "bob" 5000 ∷ []) (serve (login_attempt "ann" 3000) []).1)).0 in
    (a.is_blocked ≡ false) × (a.total_hits ≡ 1)
unfolding InOrder IsMap increment resolve_window make_room lookup insert
retry_passes_example =
    retry_passes (login_attempt "ann" 3000) (login_attempt "ann" 13000)
      (login_attempt "bob" 5000 ∷ []) [] tt (ground arith) (ground (arith, eq_iff "bob" "ann")) refl
      (ground arith) (ground arith) (ground arith)

abbrev request_of : String → HttpRequest
request_of user = record {
  is_http = true;
  metadata = none;
  method = "POST";
  url = "/orders";
  user_id = some user;
  connecting_ip = none;
  ip = "10.0.0.1";
}
