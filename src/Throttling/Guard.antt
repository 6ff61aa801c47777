-- ===== src/Throttling/Guard.antt =====
-- The guards over the storage: apps/api/src/common/http/configurable-throttler.guard.ts,
-- api-mutation-throttler.guard.ts and route-throttler.guard.ts. The package's `handleRequest` is the
-- call of `increment` on the tracker's key that throws when the answer is "blocked"; the key is made of
-- the tracker by a function of the package, a parameter here.
use Prim.Native.String.{◌++◌}
use text.Mathlib.Text.{find?}
use elonew.Base.{
  ℕ, ◌*◌, String, Bool, true, not, List, [], ◌∷◌, Option, none, some, if◌then◌else◌, same, truthy,
  or_else, is_some, any, Dict,
}
use elonew.Throttling.Window.{ThrottleWindow, increment}

-- `RouteThrottleConfig`
pub record RouteThrottleConfig : Type 0 where
  pub name : String
  pub limit : ℕ
  pub ttl : ℕ

-- `RouteThrottleMetadata`: the two settings by their names.
pub record RouteThrottleMetadata : Type 0 where
  pub name : String
  pub limit : String
  pub ttl_seconds : String

-- What the guards read of a request.
pub record HttpRequest : Type 0 where
  pub is_http : Bool
  pub metadata : Option RouteThrottleMetadata
  pub method : String
  pub url : String
  pub user_id : Option String
  pub connecting_ip : Option String
  pub ip : String

-- `getTracker`, its header given once.
unfoldable pub get_tracker : HttpRequest → String
get_tracker req =
    if truthy req.user_id
    then "user:" ++ or_else req.user_id ""
    else "ip:" ++ or_else req.connecting_ip req.ip

-- `UNTHROTTLED_METHODS`
abbrev pub unthrottled_methods : List String
unthrottled_methods = "GET" ∷ "HEAD" ∷ "OPTIONS" ∷ []

-- `ApiMutationThrottlerGuard.getThrottleConfig`, with its two settings.
unfoldable pub mutation_throttle_config : ℕ → ℕ → HttpRequest → Option RouteThrottleConfig
mutation_throttle_config limit ttl_seconds req =
    if not req.is_http
    then none
    else (if is_some req.metadata
        then none
        else (if any (same req.method) unthrottled_methods
            then none
            else (if is_some (find? req.url "/internal/")
                then none
                else some
                    (record { name = "api-mutations"; limit = limit; ttl = ttl_seconds * 1000 }))))

-- `RouteThrottlerGuard.getThrottleConfig`, with the settings by their names.
unfoldable pub route_throttle_config : (String → ℕ) → HttpRequest → Option RouteThrottleConfig
route_throttle_config setting req = elim req.metadata [
  | none ↦ none
  | some m ↦
      some (record { name = m.name; limit = setting m.limit; ttl = setting m.ttl_seconds * 1000 })
]

-- `canActivate`: whether the request goes on, and the storage.
unfoldable pub can_activate :
    (String → String → String)
    → Option RouteThrottleConfig
    → HttpRequest
    → ℕ
    → Dict ThrottleWindow
    → Bool × Dict ThrottleWindow
can_activate key_of none req now ws = (true, ws)
can_activate key_of (some c) req now ws =
    let (a, ws') = increment (key_of c.name (get_tracker req)) c.ttl c.limit c.ttl now ws in
    (not a.is_blocked, ws')
