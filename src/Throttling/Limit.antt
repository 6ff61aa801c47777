-- ===== src/Throttling/Limit.antt =====
-- How many requests of a key the throttler lets through, and when it does so again.
-- Code: apps/api/src/common/http/window-throttler.storage.ts
use elonew.Base.{
  IsMap, ℕ, suc, ◌+◌, ◌-◌, ◌≤◌, ◌<◌, String, true, All, List, [], ◌∷◌, Option, none, some,
  if◌then◌else◌, inl, inr, ◌≡◌, refl, arith, eq_iff, same, Bool-cases, Dict, lookup,
}
use elonew.Throttling.Window.{
  ThrottleWindow, StorageRecord, answer, window_or_fresh, count_hit, fresh_window,
}
use elonew.Throttling.Keys.{running, increment-own}
use elonew.Throttling.Isolation.{
  Request, serve, InOrder, answers_to, requests_of, answers_own, InOrder-le, answers_isolated,
}

-- The requests that were let through.
unfoldable pub passed : List StorageRecord → ℕ
passed [] = 0
passed (a ∷ rest) = if a.is_blocked then passed rest else suc (passed rest)

-- The request is under the limit, comes before the time `end`, and a window that it opens lasts until
-- then; a block lasts some time.
abbrev pub Within : ℕ → ℕ → Request → Type 0
Within limit end r =
    (r.limit ≡ limit) × (0 < r.block_duration) × (r.now < end) × (end ≤ r.now + r.ttl)

-- What a request does to a window that has not expired: it is let through and counted, or it is not.
counted_once :
    (limit block now : ℕ) (w : ThrottleWindow)
    → now < w.expires_at
    → 0 < block
    → let w' = count_hit now limit block w in
      (w'.expires_at ≡ w.expires_at)
      × (passed (answer now w' ∷ []) + (limit - w'.total_hits) ≤ limit - w.total_hits)
unfolding passed
counted_once limit block now w before lasts = ground arith

reused :
    (now ttl : ℕ) (w : ThrottleWindow) → now < w.expires_at → window_or_fresh now ttl (some w) ≡ w
reused now ttl w before = ground arith

serve-own :
    (r : Request) (k : String) (ws : Dict ThrottleWindow) {o : Option ThrottleWindow}
    {w : ThrottleWindow}
    → r.key ≡ k
    → running r.now k ws ≡ o
    → window_or_fresh r.now r.ttl o ≡ w
    → ((serve r ws).0 ≡ answer r.now (count_hit r.now r.limit r.block_duration w))
      × (lookup k (serve r ws).1 ≡ some (count_hit r.now r.limit r.block_duration w))
serve-own r k ws {o} e seen used =
    let own = increment-own r.key r.ttl r.limit r.block_duration r.now ws in
    ground (arith, own, e, seen, used)

still_running :
    (t now : ℕ) (k : String) (ws : Dict ThrottleWindow) {w : ThrottleWindow}
    → running t k ws ≡ some w
    → now < w.expires_at
    → running now k ws ≡ some w
still_running t now k ws e before = ground arith

passed-cons :
    (a : StorageRecord) (rest : List StorageRecord)
    → passed (a ∷ rest) ≡ passed (a ∷ []) + passed rest
unfolding passed
passed-cons a rest = ground arith

running_after :
    (t : ℕ) (k : String) (ws : Dict ThrottleWindow) {w : ThrottleWindow}
    → lookup k ws ≡ some w
    → t < w.expires_at
    → running t k ws ≡ some w
running_after t k ws e before = ground arith

-- The first request of the key, and the bound on the rest.
passed_first :
    (k : String) (limit end : ℕ) (r : Request) (rs : List Request) (ws : Dict ThrottleWindow)
    {o : Option ThrottleWindow} (w : ThrottleWindow)
    → same r.key k ≡ true
    → running r.now k ws ≡ o
    → window_or_fresh r.now r.ttl o ≡ w
    → end ≤ w.expires_at
    → Within limit end r
    → ((w' : ThrottleWindow)
        → running r.now k (serve r ws).1 ≡ some w'
        → end ≤ w'.expires_at
        → passed (answers_to k rs (serve r ws).1) ≤ limit - w'.total_hits)
    → passed (answers_to k (r ∷ rs) ws) ≤ limit - w.total_hits
passed_first k limit end r rs ws w hit e used le within later =
    let own = serve-own r k ws ((eq_iff r.key k).0 hit) e used in
    let once = counted_once r.limit r.block_duration r.now w (omega (arith, within, le)) within.1 in
    let bound =
      later _ (running_after r.now k (serve r ws).1 own.1 (omega (arith, within, le, once)))
        (omega (arith, within, le, once)) in
    rw (answers_own r k rs ws hit, passed-cons, own.0) (omega (arith, bound, once, within.0))

passed_in_window :
    (k : String) (limit end t : ℕ) (rs : List Request) (ws : Dict ThrottleWindow)
    (w : ThrottleWindow)
    → InOrder t rs
    → running t k ws ≡ some w
    → end ≤ w.expires_at
    → All (Within limit end) (requests_of k rs)
    → passed (answers_to k (requests_of k rs) ws) ≤ limit - w.total_hits
unfolding passed answers_to InOrder requests_of
passed_in_window k limit end t [] ws w o e le within = omega arith
passed_in_window k limit end t (r ∷ rs) ws w o e le within = elim (Bool-cases (same r.key k)) [
  | inl hit ↦
      let within' = rw hit at within in
      rw hit (
        passed_first k limit end r (requests_of k rs) ws w hit
          (still_running t r.now k ws e (omega (arith, within'.0, le)))
          (reused r.now r.ttl w (omega (arith, within'.0, le))) le within'.0
          (λ w' e' le'.
            passed_in_window k limit end r.now rs (serve r ws).1 w' o.1 e' le' within'.1))
  | inr miss ↦ rw miss (
      passed_in_window k limit end t rs ws w (InOrder-le t r.now rs o.0 o.1) e le
        (rw miss at within))
]

passed_from_start :
    (k : String) (limit end t : ℕ) (rs : List Request)
    → InOrder t rs
    → All (Within limit end) (requests_of k rs)
    → passed (answers_to k (requests_of k rs) []) ≤ limit
unfolding passed answers_to InOrder requests_of lookup
passed_from_start k limit end t [] o within = omega arith
passed_from_start k limit end t (r ∷ rs) o within = elim (Bool-cases (same r.key k)) [
  | inl hit ↦
      let within' = rw hit at within in
      rw hit (
        omega (
          arith,
          passed_first k limit end r (requests_of k rs) [] (fresh_window r.now r.ttl) hit refl refl
              within'.0.3 within'.0
              (λ w' e' le'.
                passed_in_window k limit end r.now rs (serve r []).1 w' o.1 e' le' within'.1),
        ))
  | inr miss ↦ rw miss (passed_from_start k limit end r.now rs o.1 (rw miss at within))
]

-- Of the requests of a key that come within the length of one window, with one limit, at most `limit`
-- are let through, whatever is asked under other keys in between. No window of the key is running at
-- the start, a block lasts some time, the clock does not run backwards, and the map has no key twice.
pub limit_holds :
    (k : String) (limit end t : ℕ) (rs : List Request) (ws : Dict ThrottleWindow)
    → InOrder t rs
    → IsMap ws
    → running t k ws ≡ none
    → All (Within limit end) (requests_of k rs)
    → passed (answers_to k rs ws) ≤ limit
limit_holds k limit end t rs ws o h e within =
    rw (answers_isolated k t rs ws o h e) (passed_from_start k limit end t rs o within)
