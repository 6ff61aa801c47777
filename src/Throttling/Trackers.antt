-- ===== src/Throttling/Trackers.antt =====
-- Which requests share a counter, and which are counted at all.
-- Code: apps/api/src/common/http/configurable-throttler.guard.ts, api-mutation-throttler.guard.ts and
-- route-throttler.guard.ts
use Prim.Native.String.{◌++◌, slice}
use text.Mathlib.TextLemmas.{append_cancel_left, append_assoc}
use text.Mathlib.TextPositions.{slice-append_left}
use elonew.Base.{
  ℕ, String, true, none, some, ◌≡◌, ◌≢◌, sym, ap, ◌∙◌, arith, eq_iff, or_else, truthy, ◌⊎◌,
}
use elonew.Throttling.Guard.{
  HttpRequest, get_tracker, mutation_throttle_config, route_throttle_config,
}

-- The first three letters of the two kinds of tracker.
user_not_ip : (u v : String) → "user:" ++ u ≢ "ip:" ++ v
user_not_ip u v e =
    let letters : "use" ≡ "ip:" =
      sym (slice-append_left "use" ("r:" ++ u))
      ∙ ap (λ s. slice s 0 3) (sym (append_assoc "use" "r:" u) ∙ e)
      ∙ slice-append_left "ip:" v in
    ground (arith, letters, eq_iff "use" "ip:")

-- Two signed-in users never share a counter, wherever they send from, and a signed-in user shares
-- none with an address.
pub trackers_apart :
    (r q : HttpRequest) {u : String}
    → r.user_id ≡ some u
    → truthy r.user_id ≡ true
    → q.user_id ≢ some u
    → get_tracker r ≢ get_tracker q
unfolding get_tracker
trackers_apart r q {u} signed valid other e = ground (
  arith,
  e,
  user_not_ip u (or_else q.connecting_ip q.ip),
  append_cancel_left "user:" u (or_else q.user_id ""),
)

-- A request counts under at most one of the two guards, the one of its route when that has settings of
-- its own.
pub one_guard :
    (setting : String → ℕ) (limit ttl : ℕ) (req : HttpRequest)
    → (mutation_throttle_config limit ttl req ≡ none) ⊎ (route_throttle_config setting req ≡ none)
unfolding mutation_throttle_config route_throttle_config
one_guard setting limit ttl req = ground arith
