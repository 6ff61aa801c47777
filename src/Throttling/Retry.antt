-- ===== src/Throttling/Retry.antt =====
-- When the throttler lets a caller through again, and what it does until then.
-- Code: apps/api/src/common/http/window-throttler.storage.ts
use native.Mathlib.Nat.{div-add-mod, mod-lt}
use elonew.Base.{
  IsMap, ℕ, ◌+◌, ◌*◌, ◌-◌, ◌≤◌, ◌<◌, String, true, false, List, [], ◌∷◌, All, none, some, ◌≡◌, ◌≢◌,
  refl, ◌∙◌, arith, Dict, lookup,
}
use elonew.Base.Int.{pos_part}
use elonew.Throttling.Window.{ThrottleWindow, answer, is_running, ceil_seconds, increment}
use elonew.Throttling.Keys.{running, counted, increment-own}
use elonew.Throttling.Isolation.{Request, serve, InOrder, serve-IsMap, served_other}

-- Requests of any keys, one after the other.
unfoldable pub serve_all : List Request → Dict ThrottleWindow → Dict ThrottleWindow
serve_all [] ws = ws
serve_all (r ∷ rs) ws = serve_all rs (serve r ws).1

-- Rounding up to a second does not shorten the time.
ceil_seconds-le : (ms : ℕ) → ms ≤ 1000 * ceil_seconds ms
ceil_seconds-le ms =
    omega (arith, div-add-mod (ms + 999) 1000, mod-lt (ms + 999) {m = 1000} (omega arith))

unchanged_by_others :
    (k : String) (t later : ℕ) (rs : List Request) (ws : Dict ThrottleWindow)
    → InOrder t rs
    → IsMap ws
    → All (λ r. (r.key ≢ k) × (r.now ≤ later)) rs
    → running later k (serve_all rs ws) ≡ running later k ws
unfolding serve_all InOrder
unchanged_by_others k t later [] ws o h others = refl
unchanged_by_others k t later (r ∷ rs) ws o h others =
    unchanged_by_others k r.now later rs (serve r ws).1 o.1 (serve-IsMap r ws h) others.1
    ∙ served_other r k ws later others.0.0 others.0.1 h

-- Past the seconds of an answer, its window has run out.
waited_out :
    (now later : ℕ) (w : ThrottleWindow)
    → now + 1000 * (answer now w).time_to_block_expire ≤ later
    → now + 1000 * pos_part (answer now w).time_to_expire ≤ later
    → is_running later w ≡ false
waited_out now later w block window =
    ground (arith, ceil_seconds-le (w.block_expires_at - now), ceil_seconds-le (w.expires_at - now))

run_out :
    (r : Request) (later : ℕ) (ws : Dict ThrottleWindow)
    → r.now + 1000 * (serve r ws).0.time_to_block_expire ≤ later
    → r.now + 1000 * pos_part (serve r ws).0.time_to_expire ≤ later
    → running later r.key (serve r ws).1 ≡ none
run_out r later ws block window =
    let own = increment-own r.key r.ttl r.limit r.block_duration r.now ws in
    let w = counted r.ttl r.limit r.block_duration r.now (running r.now r.key ws) in
    rw (own.1, waited_out r.now later w (rw own.0 at block) (rw own.0 at window))

fresh_passes :
    (ttl limit block now : ℕ)
    → 0 < limit
    → ((answer now (counted ttl limit block now none)).is_blocked ≡ false)
      × ((answer now (counted ttl limit block now none)).total_hits ≡ 1)
fresh_passes ttl limit block now positive = ground arith

-- A caller that waits for as long as the last answer said, for its block and for its window, is let
-- through and counted as the first of a new window, whatever others asked meanwhile. The limit allows
-- a request at all, the clock does not run backwards, and the map has no key twice.
pub retry_passes :
    (r next : Request) (rs : List Request) (ws : Dict ThrottleWindow)
    → IsMap ws
    → InOrder r.now rs
    → All (λ other. (other.key ≢ r.key) × (other.now ≤ next.now)) rs
    → next.key ≡ r.key
    → 0 < next.limit
    → r.now + 1000 * (serve r ws).0.time_to_block_expire ≤ next.now
    → r.now + 1000 * pos_part (serve r ws).0.time_to_expire ≤ next.now
    → let a = (serve next (serve_all rs (serve r ws).1)).0 in
      (a.is_blocked ≡ false) × (a.total_hits ≡ 1)
retry_passes r next rs ws h o others e positive block window =
    let quiet =
      unchanged_by_others r.key r.now next.now rs (serve r ws).1 o (serve-IsMap r ws h) others
      ∙ run_out r next.now ws block window in
    let own =
      increment-own next.key next.ttl next.limit next.block_duration next.now
        (serve_all rs (serve r ws).1) in
    rw (own.0, e, quiet) (fresh_passes next.ttl next.limit next.block_duration next.now positive)

-- A request under a block is refused, and neither counts nor makes the block longer: the window stays
-- as it is.
pub blocked_stays :
    (k : String) (ttl limit block now : ℕ) (ws : Dict ThrottleWindow) {w : ThrottleWindow}
    → lookup k ws ≡ some w
    → now < w.block_expires_at
    → ((increment k ttl limit block now ws).0.is_blocked ≡ true)
      × (lookup k (increment k ttl limit block now ws).1 ≡ some w)
blocked_stays k ttl limit block now ws {w} found before =
    ground (arith, increment-own k ttl limit block now ws)
