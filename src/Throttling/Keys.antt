-- ===== src/Throttling/Keys.antt =====
-- What the sweep and the writes of the throttler's map leave of the other keys.
-- Code: apps/api/src/common/http/window-throttler.storage.ts
use elonew.Base.{
  ℕ, ◌≤◌, String, [], ◌∷◌, Option, none, some, if◌then◌else◌, ◌≡◌, ◌≢◌, refl, arith, eq_iff, Dict,
  lookup, lookup-insert, lookup-insert_self, IsMap, insert-IsMap,
}
use elonew.Throttling.Window.{
  ThrottleWindow, is_running, prune, make_room, resolve_window, increment, window_or_fresh,
  count_hit, answer,
}

-- The window of a key, unless it has run out: all that a request can see of it.
abbrev keep_running : ℕ → Option ThrottleWindow → Option ThrottleWindow
keep_running now none = none
keep_running now (some w) = if is_running now w then some w else none

abbrev pub running : ℕ → String → Dict ThrottleWindow → Option ThrottleWindow
running now k ws = keep_running now (lookup k ws)

lookup-prune :
    (now : ℕ) (k : String) (ws : Dict ThrottleWindow)
    → IsMap ws
    → lookup k (prune now ws) ≡ running now k ws
unfolding IsMap prune lookup
lookup-prune now k [] h = refl
lookup-prune now k ((j, w) ∷ ws) h = ground (arith, eq_iff j k, lookup-prune now k ws h.1)

prune-IsMap : (now : ℕ) (ws : Dict ThrottleWindow) → IsMap ws → IsMap (prune now ws)
unfolding IsMap prune
prune-IsMap now [] h = tt
prune-IsMap now ((k, w) ∷ ws) h = ground (arith, prune-IsMap now ws h.1, lookup-prune now k ws h.1)

make_room-IsMap : (now : ℕ) (ws : Dict ThrottleWindow) → IsMap ws → IsMap (make_room now ws)
unfolding make_room
make_room-IsMap now ws h = ground (arith, prune-IsMap now ws h)

-- A window that has run out stays so.
running-prune :
    (now later : ℕ) (k : String) (ws : Dict ThrottleWindow)
    → now ≤ later
    → IsMap ws
    → running later k (prune now ws) ≡ running later k ws
running-prune now later k ws le h = ground (arith, lookup-prune now k ws h)

running-make_room :
    (now later : ℕ) (k : String) (ws : Dict ThrottleWindow)
    → now ≤ later
    → IsMap ws
    → running later k (make_room now ws) ≡ running later k ws
unfolding make_room
running-make_room now later k ws le h = ground (arith, running-prune now later k ws le h)

pub increment-IsMap :
    (k : String) (ttl limit block now : ℕ) (ws : Dict ThrottleWindow)
    → IsMap ws
    → IsMap (increment k ttl limit block now ws).1
unfolding increment resolve_window
increment-IsMap k ttl limit block now ws h = grind (arith, insert-IsMap, make_room-IsMap now ws h)

-- The window that a request leaves behind, from the one it sees.
abbrev pub counted : ℕ → ℕ → ℕ → ℕ → Option ThrottleWindow → ThrottleWindow
counted ttl limit block now seen = count_hit now limit block (window_or_fresh now ttl seen)

pub increment-own :
    (k : String) (ttl limit block now : ℕ) (ws : Dict ThrottleWindow)
    → let w = counted ttl limit block now (running now k ws) in
      ((increment k ttl limit block now ws).0 ≡ answer now w)
      × (lookup k (increment k ttl limit block now ws).1 ≡ some w)
unfolding increment resolve_window
increment-own k ttl limit block now ws = grind (arith, lookup-insert_self)

pub increment-other :
    (k j : String) (ttl limit block now later : ℕ) (ws : Dict ThrottleWindow)
    → k ≢ j
    → now ≤ later
    → IsMap ws
    → running later j (increment k ttl limit block now ws).1 ≡ running later j ws
unfolding increment resolve_window
increment-other k j ttl limit block now later ws ne le h =
    grind (arith, lookup-insert, eq_iff k j, running-make_room now later j ws le h)
