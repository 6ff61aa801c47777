-- ===== src/Throttling/Window.antt =====
-- apps/api/src/common/http/window-throttler.storage.ts: `WindowThrottlerStorage`. Times and durations
-- are milliseconds. The object that `resolveWindow` hands out is the one the map holds, so what
-- `increment` writes to it is put back under its key.
use elonew.Base.{
  ℕ, suc, ◌+◌, ◌-◌, ◌/◌, String, Bool, false, ◌&&◌, ◌||◌, [], ◌∷◌, Option, none, some,
  if◌then◌else◌, ltb, leb, length, Dict, lookup, insert,
}
use elonew.Base.Int.{ℤ, pos, negsuc}

pub record ThrottleWindow : Type 0 where
  pub total_hits : ℕ
  pub expires_at : ℕ
  pub block_expires_at : ℕ

-- `ThrottlerStorageRecord`
pub record StorageRecord : Type 0 where
  pub total_hits : ℕ
  pub time_to_expire : ℤ
  pub is_blocked : Bool
  pub time_to_block_expire : ℕ

-- `PRUNE_THRESHOLD`
abbrev pub prune_threshold : ℕ
prune_threshold = 10000

-- `window.expiresAt > now || window.blockExpiresAt > now`
abbrev pub is_running : ℕ → ThrottleWindow → Bool
is_running now w = ltb now w.expires_at || ltb now w.block_expires_at

-- `prune`: the sweep that deletes the windows that have run out.
unfoldable pub prune : ℕ → Dict ThrottleWindow → Dict ThrottleWindow
prune now [] = []
prune now ((k, w) ∷ ws) = if is_running now w then (k, w) ∷ prune now ws else prune now ws

-- `Math.ceil(ms / 1000)`, for a whole number of milliseconds.
abbrev pub ceil_seconds : ℕ → ℕ
ceil_seconds ms = (ms + 999) / 1000

-- `Math.ceil((at - now) / 1000)`, below zero once `at` has passed for a second or more.
abbrev pub seconds_to : ℕ → ℕ → ℤ
seconds_to now at =
    if leb now at
    then pos (ceil_seconds (at - now))
    else (if leb 1000 (now - at) then negsuc ((now - at) / 1000 - 1) else pos 0)

-- A window that is still running, as `resolveWindow` reuses it: the reset in it is written out.
abbrev pub reuse_window : ℕ → ℕ → ThrottleWindow → ThrottleWindow
reuse_window now ttl w =
    if leb w.expires_at now && leb w.block_expires_at now
    then record w { total_hits = 0; expires_at = now + ttl }
    else w

abbrev pub fresh_window : ℕ → ℕ → ThrottleWindow
fresh_window now ttl = record { total_hits = 0; expires_at = now + ttl; block_expires_at = 0 }

-- `if (this.windows.size >= PRUNE_THRESHOLD) this.prune(now)`
unfoldable pub make_room : ℕ → Dict ThrottleWindow → Dict ThrottleWindow
make_room now ws = if leb prune_threshold (length ws) then prune now ws else ws

abbrev pub running_window : ℕ → Option ThrottleWindow → Bool
running_window now none = false
running_window now (some w) = is_running now w

abbrev pub window_or_fresh : ℕ → ℕ → Option ThrottleWindow → ThrottleWindow
window_or_fresh now ttl none = fresh_window now ttl
window_or_fresh now ttl (some w) =
    if is_running now w then reuse_window now ttl w else fresh_window now ttl

-- `resolveWindow`: the window, and the map that holds it.
unfoldable pub resolve_window :
    String → ℕ → ℕ → Dict ThrottleWindow → ThrottleWindow × Dict ThrottleWindow
resolve_window key now ttl ws =
    let w = window_or_fresh now ttl (lookup key ws) in
    if running_window now (lookup key ws)
    then (w, insert key w ws)
    else (w, insert key w (make_room now ws))

-- The counting under `if (window.blockExpiresAt <= now)`.
abbrev pub count_hit : ℕ → ℕ → ℕ → ThrottleWindow → ThrottleWindow
count_hit now limit block w =
    if leb w.block_expires_at now
    then (if ltb limit (suc w.total_hits)
        then record w { total_hits = suc w.total_hits; block_expires_at = now + block }
        else record w { total_hits = suc w.total_hits })
    else w

abbrev pub answer : ℕ → ThrottleWindow → StorageRecord
answer now w = record {
  total_hits = w.total_hits;
  time_to_expire = seconds_to now w.expires_at;
  is_blocked = ltb now w.block_expires_at;
  time_to_block_expire = ceil_seconds (w.block_expires_at - now);
}

-- `increment`
unfoldable pub increment :
    String → ℕ → ℕ → ℕ → ℕ → Dict ThrottleWindow → StorageRecord × Dict ThrottleWindow
unfolding resolve_window
increment key ttl limit block now ws =
    let (w, ws') = resolve_window key now ttl ws in
    let w' = count_hit now limit block w in (answer now w', insert key w' ws')
